-- ===== src/Core/Engine/Legs.antt =====
-- crates/core/src/engine.rs: the chain of quotes of one leg, and the publication of its best price.
use rfq_matching_settlement.Prelude.{
  ℕ, zero, suc, Bool, false, not, ◌&&◌, Option, none, some, get_elem?, ◌==◌, if◌then◌else◌, u8_max,
  saturating_add, saturating_sub,
}
use rfq_matching_settlement.Prelude.Result.{Result, ok, err}
use rfq_matching_settlement.Core.Types.{Price, Ts, LegId}
use rfq_matching_settlement.Core.Slab
use rfq_matching_settlement.Core.Slab.{nil, Handle}
use rfq_matching_settlement.Core.Quote.{Quote}
use rfq_matching_settlement.Core.Request.{Leg, Request, leg_at, write_leg, Selection}
use rfq_matching_settlement.Core.Selection.{NoQuoteReason, quote_at, best_on_leg}
use rfq_matching_settlement.Core.Event.{best_selection_changed}
use rfq_matching_settlement.Core.Ledger.{Ledger}
use rfq_matching_settlement.Core.Engine.{
  Turn, ledger_of, on_ledger, emit, update_request, update_quote,
}

abbrev leg_in : Option Request → LegId → Option Leg
leg_in none leg = none
leg_in (some r) leg = leg_at r leg

-- `self.ledger.request(request).and_then(|record| record.leg(leg_id))`.
unfoldable pub request_leg : Handle → LegId → Ledger → Option Leg
request_leg request leg l = leg_in (Slab.get l.requests request) leg

abbrev pub write_found : Option Leg → LegId → (Leg → Leg) → Request → Request
write_found none leg f r = r
write_found (some g) leg f r = write_leg leg (f g) r

-- `request_mut(request).and_then(|r| r.leg_mut(leg_id))`, and a write through the reference.
unfoldable pub update_leg : Handle → LegId → (Leg → Leg) → Ledger → Ledger
unfolding update_request
update_leg request leg f = update_request request (λ r. write_found (get_elem? r.slots leg) leg f r)

abbrev pub head_of_leg : Option Leg → ℕ
head_of_leg none = nil
head_of_leg (some g) = g.quotes_head

-- `link_quote`.
unfoldable pub link_quote : Handle → LegId → Handle → Ledger → Ledger
unfolding update_quote request_leg
link_quote request leg quote l =
    let head = head_of_leg (request_leg request leg l) in
    update_leg request leg
      (λ g. record g {
        quotes_head = quote.index;
        quote_count = saturating_add u8_max g.quote_count 1;
      })
      (update_quote quote (λ q. record q { next_on_leg = head }) l)

-- `link.index() == Some(target)`.
abbrev pub names : ℕ → ℕ → Bool
names link target = not (link == nil) && link == target

abbrev pub next_on_leg_of : Option Quote → ℕ
next_on_leg_of none = nil
next_on_leg_of (some q) = q.next_on_leg

abbrev pub one_less : Leg → Leg
one_less g = record g { quote_count = saturating_sub g.quote_count 1 }

-- The loop of `unlink_quote`, on fuel.
unfoldable pub unlink_from : ℕ → Handle → LegId → Handle → ℕ → Ledger → Option Ledger
unfolding update_quote
unlink_from zero request leg quote cursor l = none
unlink_from (suc fuel) request leg quote cursor l = elim (quote_at l.quotes cursor) [
  | none ↦ some l
  | some (h, current) ↦
      let rest = unlink_from fuel request leg quote current.next_on_leg l in
      let after = next_on_leg_of (Slab.get l.quotes quote) in
      if names current.next_on_leg quote.index
      then some (
          update_leg request leg one_less
            (update_quote h (λ q. record q { next_on_leg = after }) l))
      else rest
]

-- `unlink_quote`.
unfoldable pub unlink_quote : ℕ → Handle → LegId → Handle → Ledger → Option Ledger
unfolding unlink_from request_leg
unlink_quote fuel request leg quote l = elim (request_leg request leg l) [
  | none ↦ some l
  | some g ↦
      if names g.quotes_head quote.index
      then (let next = next_on_leg_of (Slab.get l.quotes quote) in
          some (
            update_leg request leg
              (λ e. record e { quotes_head = next; quote_count = saturating_sub e.quote_count 1 })
              l))
      else unlink_from fuel request leg quote g.quotes_head l
]

-- `leg.published() == Some(price)`.
abbrev pub is_published : Option Price → Price → Bool
is_published none price = false
is_published (some p) price = p == price

abbrev pub publish_best : Leg → Handle → LegId → Result NoQuoteReason Selection → Turn → Turn
publish_best g request leg (err e) t = t
publish_best g request leg (ok best) t =
    if is_published g.published best.price
    then t
    else emit (best_selection_changed request leg best.price)
        (on_ledger (update_leg request leg (λ e. record e { published = some best.price })) t)

-- `publish_selection`.
unfoldable pub publish_selection : ℕ → Handle → LegId → Ts → Turn → Option Turn
unfolding request_leg
publish_selection fuel request leg now t = elim (request_leg request leg (ledger_of t)) [
  | none ↦ some t
  | some g ↦ elim (best_on_leg fuel (ledger_of t).quotes g now) [
    | none ↦ none
    | some best ↦ some (publish_best g request leg best t)
  ]
]
