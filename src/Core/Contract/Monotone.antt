-- ===== src/Core/Contract/Monotone.antt =====
-- crates/core/src/contract.rs: a contract's status only moves forwards, and the outcome that it
-- reaches is the one that it keeps.
use rfq_matching_settlement.Prelude.{
  ◌+◌, ◌≤◌, ◌<◌, ◌≡◌, ◌↔◌, ◌⊎◌, inl, inr, refl, List, [], ◌∷◌, true, arith, u64_max, if◌then◌else◌,
}
use rfq_matching_settlement.Prelude.Result.{ok}
use rfq_matching_settlement.Core.Types.{Ts, Dur}
use rfq_matching_settlement.Core.Contract.{
  Contract, Outcome, OracleStatus, ContractState, silent, in_progress, final, unresolved, resolved,
  void, new_contract, may_report, set_oracle_status, outcome,
}

-- The resolution state that goes with a status: resolved exactly when the status is final.
abbrev pub state_of : OracleStatus → ContractState
state_of (final o) = resolved o
state_of silent = unresolved
state_of in_progress = unresolved

abbrev pub IsCoherent : Contract → Type 0
IsCoherent c = c.state ≡ state_of c.oracle_status

pub new_contract-IsCoherent : (date : Ts) → IsCoherent (new_contract date)
unfolding new_contract
new_contract-IsCoherent date = refl

-- A report that is admitted keeps the state in step with the status.
pub set_oracle_status-IsCoherent :
    (c : Contract) (s : OracleStatus)
    → IsCoherent c
    → may_report c s ≡ true
    → IsCoherent (set_oracle_status c s)
unfolding may_report set_oracle_status
set_oracle_status-IsCoherent c (final o) h m = refl
set_oracle_status-IsCoherent c silent h m = ground arith
set_oracle_status-IsCoherent c in_progress h m = ground arith

-- Reports in sequence, each recorded only where `may_report` allows it.
pub report_all : Contract → List OracleStatus → Contract
report_all c [] = c
report_all c (s ∷ ss) = report_all (if may_report c s then set_oracle_status c s else c) ss

report_all_final :
    (c : Contract) (o : Outcome) (ss : List OracleStatus)
    → c.oracle_status ≡ final o
    → report_all c ss ≡ c
unfolding report_all may_report
report_all_final c o [] h = refl
report_all_final c o (s ∷ ss) h = ground (arith, report_all_final c o ss)

-- A coherent contract has the outcome `o` exactly when its status is `Final(o)`, or the oracle is
-- silent, `o` is `Void` and the instant is past the event date plus the grace, which fits a u64.
pub outcome_iff :
    (c : Contract) (now : Ts) (grace : Dur) (o : Outcome)
    → IsCoherent c
    → (outcome c now grace ≡ ok o) ↔ (
        (c.oracle_status ≡ final o)
        ⊎ ((c.oracle_status ≡ silent)
            × (o ≡ void)
            × (c.event_date + grace ≤ u64_max)
            × (c.event_date + grace < now)))
unfolding outcome
outcome_iff c now grace o h = (λ e. forth c.oracle_status refl e, λ s. back s)
  where
    forth :
        (s : OracleStatus)
        → c.oracle_status ≡ s
        → outcome c now grace ≡ ok o
        → (c.oracle_status ≡ final o)
          ⊎ ((c.oracle_status ≡ silent)
              × (o ≡ void)
              × (c.event_date + grace ≤ u64_max)
              × (c.event_date + grace < now))
    forth (final p) q e = inl (ground arith)
    forth silent q e = inr (ground arith)
    forth in_progress q e = ground arith

    back :
        (c.oracle_status ≡ final o)
          ⊎ ((c.oracle_status ≡ silent)
              × (o ≡ void)
              × (c.event_date + grace ≤ u64_max)
              × (c.event_date + grace < now))
        → outcome c now grace ≡ ok o
    back (inl q) = ground arith
    back (inr q) = ground arith

-- Once the status is final, no later report and no passing of time changes the outcome.
pub outcome_immutable :
    (c : Contract) (o : Outcome) (ss : List OracleStatus) (now : Ts) (grace : Dur)
    → IsCoherent c
    → c.oracle_status ≡ final o
    → outcome (report_all c ss) now grace ≡ ok o
outcome_immutable c o ss now grace h f =
    ground (arith, report_all_final c o ss, outcome_iff c now grace o h)
