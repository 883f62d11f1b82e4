-- ===== src/Core/Engine/Submit.antt =====
-- crates/core/src/engine.rs, `submit_request`.
pub mod Refused
use rfq_matching_settlement.Prelude.{ℕ, List, ltb, leb, ◌==◌}
use rfq_matching_settlement.Prelude.Process.{◌>>=◌, ◌>>◌, gets, modify, lift, err_if}
use rfq_matching_settlement.Core.Types.{Ts, AccountIdx, ts_saturating_sub}
use rfq_matching_settlement.Core.Command.{LegSpec}
use rfq_matching_settlement.Core.Slab.{Handle}
use rfq_matching_settlement.Core.Request.{new_request}
use rfq_matching_settlement.Core.Event.{request_opened}
use rfq_matching_settlement.Core.Ledger.Admission.{open_request_reserving}
use rfq_matching_settlement.Core.Engine.{
  no_legs, too_many_legs, deadline_in_the_past, deadline_too_far, Handler, ledger_of, emit,
  check_headroom, run_ledger,
}
use rfq_matching_settlement.Core.Engine.Terms.{no_terms, add_legs}

unfoldable pub submit_request : ℕ → AccountIdx → Ts → List LegSpec → ℕ → Ts → Handler (Unit {0})
unfolding add_legs
submit_request fuel requester deadline specs n_legs now = do
  config ← gets (λ t. t.engine.config)
  err_if (n_legs == 0) no_legs
  err_if (ltb config.max_legs n_legs) too_many_legs
  err_if (leb deadline now) deadline_in_the_past
  err_if (ltb config.max_request_ttl (ts_saturating_sub deadline now)) deadline_too_far
  l ← gets ledger_of
  terms ← lift (add_legs n_legs 0 l config.min_horizon now specs no_terms)
  check_headroom 1
  opened ← run_ledger (
      open_request_reserving fuel (new_request requester deadline terms.stored n_legs)
        terms.reservation)
  modify (emit (request_opened opened.0 deadline terms.opened n_legs))
