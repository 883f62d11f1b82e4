-- ===== src/Core/Selection.antt =====
-- crates/core/src/selection.rs: the walk over a leg's chain of quotes. Of the ledger, a walk reads
-- only the slab of quotes.
pub mod Best
use rfq_matching_settlement.Prelude.{
  ℕ, zero, suc, ◌+◌, Bool, true, false, not, ◌&&◌, ◌||◌, Option, none, some, List, [], ◌∷◌, ltb,
  leb, ◌==◌, if◌then◌else◌, u64_max,
}
use rfq_matching_settlement.Prelude.Result.{Result, ok, err}
use rfq_matching_settlement.Core.Types.{Price, Size, Ts, AccountIdx}
use rfq_matching_settlement.Core.Slab.{nil, Handle, Slab, get, handle_at}
use rfq_matching_settlement.Core.Quote.{Quote, is_active, is_live_at}
use rfq_matching_settlement.Core.Request.{Leg, Selection}

pub data NoQuoteReason : Type 0 where
  no_quotes all_expired outside_limit size_too_small : NoQuoteReason

-- What a link resolves to: `quote_handle_at`, then `quote`.
unfoldable pub quote_at : Slab Quote → ℕ → Option (Handle × Quote)
unfolding handle_at get
quote_at quotes index = if index == nil then none else elim (handle_at quotes index) [
  | none ↦ none
  | some h ↦ elim (get quotes h) [ none ↦ none | some q ↦ some (h, q) ]
]

-- The local variables of the loop of `best_on_leg`.
pub record Scan : Type 0 where
  pub best : Option Selection
  pub best_arrival : ℕ
  pub saw_quote : Bool
  pub saw_live : Bool
  pub saw_big_enough : Bool

abbrev pub fresh_scan : Scan
fresh_scan = record {
  best = none;
  best_arrival = u64_max;
  saw_quote = false;
  saw_live = false;
  saw_big_enough = false;
}

-- A lower price, or an equal price that came earlier.
abbrev pub better : Quote → Option Selection → ℕ → Bool
better q none arrival = true
better q (some current) arrival =
    ltb q.price current.price || (q.price == current.price && ltb q.arrival arrival)

abbrev pub take_if_better : Handle → Quote → Scan → Scan
take_if_better h q s =
    if better q s.best s.best_arrival
    then record s { best = some (record { quote = h; price = q.price }); best_arrival = q.arrival }
    else s

-- One round of the loop, on the quote that the cursor names.
unfoldable pub visit : Leg → Ts → Handle → Quote → Scan → Scan
visit leg now h q s =
    let seen : Scan = record s { saw_quote = true } in
    let live : Scan = record seen { saw_live = true } in
    let big : Scan = record live { saw_big_enough = true } in
    if not (is_live_at q now)
    then seen
    else (if ltb q.size leg.size
        then live
        else (if ltb leg.limit q.price then big else take_if_better h q big))

-- The loop, on fuel: `none` is a walk that the fuel does not finish.
unfoldable pub scan : ℕ → Slab Quote → Leg → Ts → ℕ → Scan → Option Scan
unfolding visit quote_at
scan zero quotes leg now cursor s = none
scan (suc fuel) quotes leg now cursor s = elim (quote_at quotes cursor) [
  | none ↦ some s
  | some (h, q) ↦ scan fuel quotes leg now q.next_on_leg (visit leg now h q s)
]

unfoldable pub verdict : Scan → Result NoQuoteReason Selection
verdict s = elim s.best [
  | some b ↦ ok b
  | none ↦
      if not s.saw_quote
      then err no_quotes
      else (if not s.saw_live
          then err all_expired
          else (if s.saw_big_enough then err outside_limit else err size_too_small))
]

-- `best_on_leg`.
unfoldable pub best_on_leg : ℕ → Slab Quote → Leg → Ts → Option (Result NoQuoteReason Selection)
unfolding scan verdict
best_on_leg fuel quotes leg now = elim (scan fuel quotes leg now leg.quotes_head fresh_scan) [
  | none ↦ none
  | some s ↦ some (verdict s)
]

-- `standing_quote_of`, on fuel.
unfoldable pub standing_from : ℕ → Slab Quote → AccountIdx → ℕ → Option (Option Handle)
unfolding quote_at
standing_from zero quotes maker cursor = none
standing_from (suc fuel) quotes maker cursor = elim (quote_at quotes cursor) [
  | none ↦ some none
  | some (h, q) ↦
      let rest = standing_from fuel quotes maker q.next_on_leg in
      if q.maker == maker && is_active q.state then some (some h) else rest
]

unfoldable pub standing_quote_of : ℕ → Slab Quote → Leg → AccountIdx → Option (Option Handle)
unfolding standing_from
standing_quote_of fuel quotes leg maker = standing_from fuel quotes maker leg.quotes_head

-- `walk_leg`: the handles in the order in which they are visited.
unfoldable pub walk_from : ℕ → Slab Quote → ℕ → Option (List Handle)
unfolding quote_at
walk_from zero quotes cursor = none
walk_from (suc fuel) quotes cursor = elim (quote_at quotes cursor) [
  | none ↦ some []
  | some (h, q) ↦ elim (walk_from fuel quotes q.next_on_leg) [
    | none ↦ none
    | some hs ↦ some (h ∷ hs)
  ]
]

unfoldable pub walk_leg : ℕ → Slab Quote → Leg → Option (List Handle)
unfolding walk_from
walk_leg fuel quotes leg = walk_from fuel quotes leg.quotes_head
