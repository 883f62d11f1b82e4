-- ===== src/Core/Engine/Release.antt =====
-- crates/core/src/engine.rs, `release_leg`, `reject_request` and `close_consumed_quotes`.
use rfq_matching_settlement.Prelude.{
  ℕ, zero, suc, ◌+◌, Bool, true, false, not, ◌&&◌, Option, none, some, List, [], ◌∷◌, take,
  if◌then◌else◌, checked_mul, u64_max,
}
use rfq_matching_settlement.Prelude.Process.{◌>>=◌, ◌>>◌, gets, modify, change, ok_or, err_if}
use rfq_matching_settlement.Core.Types.{Ts, LegId}
use rfq_matching_settlement.Core.Config.{max_legs_bound, max_quotes_per_leg_bound}
use rfq_matching_settlement.Core.Slab
use rfq_matching_settlement.Core.Slab.{Handle, Slab, handle_eq}
use rfq_matching_settlement.Core.Quote.{QuoteState, active, consumed, released, Quote, is_live_at}
use rfq_matching_settlement.Core.Request.{Selection, is_open, rejected}
use rfq_matching_settlement.Core.Selection.{walk_leg}
use rfq_matching_settlement.Core.Event.{
  QuoteRejectReason, request_rejected, Event, quote_rejected, quote_expired,
}
use rfq_matching_settlement.Core.Ledger.{Ledger, is_some}
use rfq_matching_settlement.Core.Ledger.Phase.{phase_release, phase_close_quote}
use rfq_matching_settlement.Core.Engine.{
  unknown_request, request_not_open, product_overflow, Turn, Handler, ledger_of, with_ledger,
  on_ledger, emit, check_headroom, update_request, update_quote, set_request_state, set_quote_state,
}
use rfq_matching_settlement.Core.Engine.Legs.{request_leg, unlink_quote}

abbrev is_kept : Option Selection → Handle → Bool
is_kept none h = false
is_kept (some s) h = handle_eq s.quote h

-- The quotes of the walk that are not kept.
unfoldable pub without : Option Selection → List Handle → List Handle
without keep [] = []
without keep (h ∷ hs) = if is_kept keep h then without keep hs else h ∷ without keep hs

-- `if let Some(claim) = claim { commit.release(claim) }`.
abbrev pub release_claim : Option Handle → Ledger → Ledger
release_claim none l = l
release_claim (some claim) l = phase_release claim l

abbrev pub notice : Bool → Handle → Quote → QuoteRejectReason → Event
notice true h q reason = quote_rejected h q.maker reason
notice false h q reason = quote_expired h q.maker

abbrev pub finish_release : Handle → Turn → Option Ledger → Option Turn
finish_release h t none = none
finish_release h t (some l) = some (with_ledger (phase_close_quote h l) t)

-- One round of the second loop of `release_leg`, on a quote that resolves.
unfoldable pub release_found :
    ℕ → Handle → LegId → Ts → QuoteRejectReason → Handle → Quote → Turn → Option Turn
unfolding update_quote
release_found fuel request leg now reason h q t =
    let l1 = release_claim q.claim (ledger_of t) in
    let l2 = update_quote h (set_quote_state released) l1 in
    let t2 = emit (notice (is_live_at q now) h q reason) (with_ledger l2 t) in
    finish_release h t2 (unlink_quote fuel request leg h l2)

-- The second loop of `release_leg`.
unfoldable pub release_all :
    ℕ → Handle → LegId → Ts → QuoteRejectReason → List Handle → Turn → Option Turn
unfolding release_found
release_all fuel request leg now reason [] t = some t
release_all fuel request leg now reason (h ∷ hs) t = elim (Slab.get (ledger_of t).quotes h) [
  | none ↦ release_all fuel request leg now reason hs t
  | some q ↦ elim (release_found fuel request leg now reason h q t) [
    | none ↦ none
    | some t1 ↦ release_all fuel request leg now reason hs t1
  ]
]

-- `release_leg`: of the walk, the first sixteen that are not kept.
unfoldable pub release_leg :
    ℕ → Handle → LegId → Option Selection → Ts → QuoteRejectReason → Turn → Option Turn
unfolding release_all request_leg without
release_leg fuel request leg keep now reason t = elim (request_leg request leg (ledger_of t)) [
  | none ↦ some t
  | some g ↦ elim (walk_leg fuel (ledger_of t).quotes g) [
    | none ↦ none
    | some hs ↦
        release_all fuel request leg now reason (take max_quotes_per_leg_bound (without keep hs)) t
  ]
]

-- The loop of `reject_request` over the legs `index ..`.
unfoldable pub release_legs : ℕ → ℕ → ℕ → Handle → Ts → Turn → Option Turn
unfolding release_leg
release_legs fuel zero index request now t = some t
release_legs fuel (suc rounds) index request now t =
    elim (release_leg fuel request index none now request_rejected t) [
      | none ↦ none
      | some t1 ↦ release_legs fuel rounds (index + 1) request now t1
    ]

-- `reject_request`.
unfoldable pub reject_request : ℕ → Handle → Ts → Handler (Unit {0})
unfolding release_legs update_request
reject_request fuel request now = do
  found ← gets (λ t. Slab.get (ledger_of t).requests request)
  entry ← ok_or found unknown_request
  err_if (not (is_open entry.state)) request_not_open
  limit ← gets (λ t. t.engine.config.max_quotes_per_leg)
  worst_case ← ok_or (checked_mul u64_max entry.n_legs limit) product_overflow
  check_headroom worst_case
  change (release_legs fuel entry.n_legs 0 request now)
  modify (on_ledger (release_claim entry.claim))
  modify (on_ledger (update_request request (set_request_state rejected)))

abbrev is_consumed : QuoteState → Bool
is_consumed active = false
is_consumed consumed = true
is_consumed released = false

-- The consumed quotes of a request that no claim names.
unfoldable pub spent_quotes : Handle → List (Handle × Quote) → List Handle
spent_quotes request [] = []
spent_quotes request ((h, q) ∷ rest) =
    let others = spent_quotes request rest in
    if handle_eq q.request request && is_consumed q.state && not (is_some q.claim)
    then h ∷ others
    else others

unfoldable pub close_all : List Handle → Ledger → Ledger
close_all [] l = l
close_all (h ∷ hs) l = close_all hs (phase_close_quote h l)

-- `close_consumed_quotes`: the first eight.
unfoldable pub close_consumed_quotes : Handle → Ledger → Ledger
unfolding close_all spent_quotes
close_consumed_quotes request l =
    close_all (take max_legs_bound (spent_quotes request (Slab.entries l.quotes))) l
