-- ===== src/Core/Engine/Poll.antt =====
-- crates/core/src/engine.rs, `poll_settlement` and `resolve_nonce`.
pub mod Waiting
use rfq_matching_settlement.Prelude.{
  ℕ, ◌+◌, Option, none, some, List, [], ◌∷◌, take, ltb, ◌==◌, not, if◌then◌else◌, checked_add,
  u64_max,
}
use rfq_matching_settlement.Prelude.Process.{◌>>=◌, ◌>>◌, pure, throw, gets, modify, ok_or, err_if}
use rfq_matching_settlement.Core.Types.{Amount, Ts, AccountIdx}
use rfq_matching_settlement.Core.Config.{max_legs_bound}
use rfq_matching_settlement.Core.Settlement.{
  Nonce, nonce_eq, TxStatus, unknown, pending, settled, reverted,
}
use rfq_matching_settlement.Core.Slab
use rfq_matching_settlement.Core.Slab.{Handle, Slab}
use rfq_matching_settlement.Core.Reservation.{ResOwner, quote_owner, request_owner}
use rfq_matching_settlement.Core.Quote.{Quote}
use rfq_matching_settlement.Core.Request.{
  RequestState, open_state, settling, escrowed, rejected, settlement_failed,
}
use rfq_matching_settlement.Core.Event.{
  Event, quote_rejected, failed_settlement, request_escrowed, request_settlement_failed,
  settlement_stalled,
}
use rfq_matching_settlement.Core.Ledger.{Ledger}
use rfq_matching_settlement.Core.Ledger.Phase.{discharge_committed}
use rfq_matching_settlement.Core.Engine.{
  stale_nonce, unknown_request, request_not_settling, product_overflow, Turn, Handler, ledger_of,
  with_ledger, on_ledger, emit, check_headroom, update_request, set_request_state,
}
use rfq_matching_settlement.Core.Engine.Release.{close_consumed_quotes}

abbrev pub of_generation : Option Handle → Nonce → Option Handle
of_generation none nonce = none
of_generation (some h) nonce = if h.generation == nonce.generation then some h else none

-- `resolve_nonce`.
unfoldable pub resolve_nonce : Nonce → Ledger → Option Handle
resolve_nonce nonce l = of_generation (Slab.handle_at l.requests nonce.request) nonce

-- `let RequestState::Settling { nonce, deadline } = ..`.
abbrev pub in_flight : RequestState → Option (Nonce × Ts)
in_flight open_state = none
in_flight (settling nonce deadline) = some (nonce, deadline)
in_flight escrowed = none
in_flight rejected = none
in_flight settlement_failed = none

-- The quotes among the owners that a discharge visits.
unfoldable pub quotes_of : List (ResOwner × Amount) → List Handle
quotes_of [] = []
quotes_of ((quote_owner h, x) ∷ rest) = h ∷ quotes_of rest
quotes_of ((request_owner h, x) ∷ rest) = quotes_of rest

abbrev maker_of : Option Quote → AccountIdx
maker_of none = 0
maker_of (some q) = q.maker

-- One notice for each quote.
unfoldable pub notify_failed : List Handle → Turn → Turn
notify_failed [] t = t
notify_failed (h ∷ hs) t =
    notify_failed hs
      (emit (quote_rejected h (maker_of (Slab.get (ledger_of t).quotes h)) failed_settlement) t)

-- The commit phase of `Settled`.
unfoldable pub settle_request : Handle → Nonce → Turn → Turn
unfolding update_request close_consumed_quotes
settle_request request nonce t =
    let (visited, l1) = discharge_committed request (ledger_of t) in
    let l2 = update_request request (set_request_state escrowed) l1 in
    emit (request_escrowed request nonce) (with_ledger (close_consumed_quotes request l2) t)

-- The commit phase of `Reverted`.
unfoldable pub fail_request : Handle → Nonce → Turn → Turn
unfolding update_request close_consumed_quotes notify_failed quotes_of
fail_request request nonce t =
    let (visited, l1) = discharge_committed request (ledger_of t) in
    let t1 = notify_failed (take max_legs_bound (quotes_of visited)) (with_ledger l1 t) in
    let t2 = on_ledger (close_consumed_quotes request) t1 in
    let t3 = on_ledger (update_request request (set_request_state settlement_failed)) t2 in
    emit (request_settlement_failed request nonce) t3

-- No answer yet: an alert once the deadline has passed.
abbrev pub wait : Handle → Nonce → Ts → TxStatus → Ts → Handler (Unit {0})
wait request nonce deadline status now t =
    if ltb now deadline
    then pure tt t
    else (check_headroom 1 >> modify (emit (settlement_stalled request nonce status))) t

unfoldable pub act_on : Handle → ℕ → Nonce → Ts → TxStatus → Ts → Handler (Unit {0})
unfolding settle_request fail_request
act_on request n_legs nonce deadline unknown now = wait request nonce deadline unknown now
act_on request n_legs nonce deadline pending now = wait request nonce deadline pending now
act_on request n_legs nonce deadline settled now = do
  check_headroom 1
  modify (settle_request request nonce)
act_on request n_legs nonce deadline reverted now = do
  worst_case ← ok_or (checked_add u64_max n_legs 1) product_overflow
  check_headroom worst_case
  modify (fail_request request nonce)

-- `poll_settlement`.
unfoldable pub poll_settlement : Nonce → TxStatus → Ts → Handler (Unit {0})
unfolding act_on resolve_nonce
poll_settlement reported status now = do
  l ← gets ledger_of
  request ← ok_or (resolve_nonce reported l) stale_nonce
  entry ← ok_or (Slab.get l.requests request) unknown_request
  flight ← ok_or (in_flight entry.state) request_not_settling
  err_if (not (nonce_eq flight.0 reported)) stale_nonce
  act_on request entry.n_legs flight.0 flight.1 status now
