-- ===== src/Core/Engine/Resolve.antt =====
-- crates/core/src/engine.rs, `report_oracle_status` and `settle_escrow`.
use rfq_matching_settlement.Prelude.{ℕ, not}
use rfq_matching_settlement.Prelude.Result.{Result, ok, err}
use rfq_matching_settlement.Prelude.Process.{◌>>=◌, ◌>>◌, gets, modify, lift, ok_or, err_if}
use rfq_matching_settlement.Core.Types.{Ts, EscrowId}
use rfq_matching_settlement.Core.Contract.{
  ContractIdx, Outcome, OracleStatus, silent, in_progress, final, NotYet, may_report, outcome,
}
use rfq_matching_settlement.Core.Event.{contract_resolved, settle_intent}
use rfq_matching_settlement.Core.Ledger.{record_oracle_status}
use rfq_matching_settlement.Core.Engine.{
  EngineError, no_such_contract, oracle_status_regression, outcome_not_yet, Turn, Handler,
  ledger_of, on_ledger, emit, check_headroom, contract_at,
}

-- `usize::from(matches!(status, OracleStatus::Final(_)))`.
abbrev resolutions : OracleStatus → ℕ
resolutions silent = 0
resolutions in_progress = 0
resolutions (final o) = 1

abbrev pub announce : ContractIdx → OracleStatus → Turn → Turn
announce k silent t = t
announce k in_progress t = t
announce k (final o) t = emit (contract_resolved k o) t

-- `report_oracle_status`.
unfoldable pub report_oracle_status : ContractIdx → OracleStatus → Handler (Unit {0})
report_oracle_status k status = do
  found ← gets (λ t. contract_at k (ledger_of t))
  contract ← ok_or found no_such_contract
  err_if (not (may_report contract status)) oracle_status_regression
  check_headroom (resolutions status)
  modify (on_ledger (record_oracle_status k status))
  modify (announce k status)

abbrev or_not_yet : Result NotYet Outcome → Result EngineError Outcome
or_not_yet (ok o) = ok o
or_not_yet (err e) = err outcome_not_yet

-- `settle_escrow`.
unfoldable pub settle_escrow : EscrowId → ContractIdx → Ts → Handler (Unit {0})
settle_escrow escrow k now = do
  grace ← gets (λ t. t.engine.config.stall_grace)
  found ← gets (λ t. contract_at k (ledger_of t))
  contract ← ok_or found no_such_contract
  result ← lift (or_not_yet (outcome contract now grace))
  check_headroom 1
  modify (emit (settle_intent escrow k result))
