-- ===== src/Core/Engine/Accept.antt =====
-- crates/core/src/engine.rs, `accept_request`.
use rfq_matching_settlement.Prelude.{
  ℕ, zero, suc, ◌+◌, Option, none, some, List, get_elem?, ltb, leb, ◌==◌, not, checked_mul,
  checked_add, u64_max,
}
use rfq_matching_settlement.Prelude.Partial
use rfq_matching_settlement.Prelude.Process.{◌>>=◌, ◌>>◌, gets, modify, lift, change, ok_or, err_if}
use rfq_matching_settlement.Core.Types.{Amount, Ts, ts_saturating_add}
use rfq_matching_settlement.Core.Command.{ExpectedFill}
use rfq_matching_settlement.Core.Slab
use rfq_matching_settlement.Core.Slab.{Handle, Slab}
use rfq_matching_settlement.Core.Reservation.{Reservation}
use rfq_matching_settlement.Core.Quote.{consumed}
use rfq_matching_settlement.Core.Request.{nonce_of, is_open, settling, Selection}
use rfq_matching_settlement.Core.Event.{outbid, submit_intent}
use rfq_matching_settlement.Core.Ledger.{Ledger}
use rfq_matching_settlement.Core.Ledger.Phase.{phase_commit}
use rfq_matching_settlement.Core.Engine.{
  unknown_request, request_not_open, request_deadline_passed, leg_count_mismatch,
  reservation_shortfall, product_overflow, Turn, Handler, ledger_of, on_ledger, emit,
  check_headroom, planned, update_request, update_quote, set_request_state, set_quote_state,
}
use rfq_matching_settlement.Core.Engine.Release.{release_leg}
use rfq_matching_settlement.Core.Engine.Offer.{claim_of}
use rfq_matching_settlement.Core.Engine.Plan.{plan_accept, build_intent}

abbrev amount_of : Option Reservation → Option Amount
amount_of none = none
amount_of (some r) = some r.amount

-- The amount of a claim that resolves.
unfoldable pub claimed_amount : Option Handle → Slab Reservation → Option Amount
claimed_amount none s = none
claimed_amount (some claim) s = amount_of (Slab.get s claim)

abbrev pub or_zero : Option Amount → Amount
or_zero none = 0
or_zero (some a) = a

abbrev pub commit_claim : Option Handle → Handle → Amount → Ledger → Ledger
commit_claim none request amount l = l
commit_claim (some claim) request amount l = phase_commit claim request amount l

-- The winner of a leg is consumed, and its claim is committed whole.
unfoldable pub consume : Option Selection → Handle → Ledger → Ledger
unfolding update_quote claimed_amount
consume none request l = l
consume (some winner) request l =
    let claim = claim_of (Slab.get l.quotes winner.quote) in
    let amount = or_zero (claimed_amount claim l.reservations) in
    commit_claim claim request amount (update_quote winner.quote (set_quote_state consumed) l)

abbrev pub winner_at : List (Option Selection) → ℕ → Option Selection
winner_at winners index = Partial.◌>>=◌ (get_elem? winners index) (λ o. o)

-- The commit loop over the legs `index ..`.
unfoldable pub settle_legs : ℕ → ℕ → ℕ → Handle → Ts → List (Option Selection) → Turn → Option Turn
unfolding consume
settle_legs fuel zero index request now winners t = some t
settle_legs fuel (suc rounds) index request now winners t =
    let winner = winner_at winners index in
    elim (release_leg fuel request index winner now outbid t) [
      | none ↦ none
      | some t1 ↦
          settle_legs fuel rounds (index + 1) request now winners
            (on_ledger (consume winner request) t1)
    ]

-- `accept_request`.
unfoldable pub accept_request : ℕ → Handle → List ExpectedFill → ℕ → Ts → Handler (Unit {0})
unfolding settle_legs update_request plan_accept build_intent
accept_request fuel request expected n_legs now = do
  config ← gets (λ t. t.engine.config)
  l ← gets ledger_of
  entry ← ok_or (Slab.get l.requests request) unknown_request
  err_if (not (is_open entry.state)) request_not_open
  err_if (leb entry.deadline now) request_deadline_passed
  err_if (not (n_legs == entry.n_legs)) leg_count_mismatch
  plan ← planned (plan_accept fuel l.quotes entry expected now)
  claim ← ok_or entry.claim reservation_shortfall
  reserved ← ok_or (claimed_amount (some claim) l.reservations) reservation_shortfall
  err_if (ltb reserved plan.total) reservation_shortfall
  worst_case ←
      ok_or
        (Partial.◌>>=◌ (checked_mul u64_max entry.n_legs config.max_quotes_per_leg)
          (λ total. checked_add u64_max total 1))
        product_overflow
  check_headroom worst_case
  intent ← lift (build_intent l.quotes entry plan.winners)
  change (settle_legs fuel entry.n_legs 0 request now plan.winners)
  modify (on_ledger (phase_commit claim request plan.total))
  modify (
      on_ledger (
        update_request request (
          set_request_state
            (settling (nonce_of request) (ts_saturating_add now config.max_settling_time)))))
  modify (emit (submit_intent request (nonce_of request) entry.requester intent entry.n_legs))
