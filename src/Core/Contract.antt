-- ===== src/Core/Contract.antt =====
-- crates/core/src/contract.rs: contracts, oracle statuses and outcomes.
use rfq_matching_settlement.Prelude.{ℕ, Bool, true, false, Option, none, some, ltb, if◌then◌else◌}
use rfq_matching_settlement.Prelude.Result.{Result, ok, err}
use rfq_matching_settlement.Core.Types.{Ts, Dur, Side, yes_side, no_side, ts_add}
pub mod Monotone

abbrev pub ContractIdx : Type 0
ContractIdx = ℕ

pub data Outcome : Type 0 where
  yes_outcome no_outcome void : Outcome

pub data OracleStatus : Type 0 where
  silent in_progress : OracleStatus
  final : Outcome → OracleStatus

pub data ContractState : Type 0 where
  unresolved : ContractState
  resolved : Outcome → ContractState

pub data NotYet : Type 0 where
  not_yet : NotYet

pub record Contract : Type 0 where
  pub event_date : Ts
  pub state : ContractState
  pub oracle_status : OracleStatus

-- `Contract::new`.
unfoldable pub new_contract : Ts → Contract
new_contract date = record { event_date = date; state = unresolved; oracle_status = silent }

-- The `rank` inside `may_report`.
abbrev pub rank : OracleStatus → ℕ
rank silent = 0
rank in_progress = 1
rank (final o) = 2

unfoldable pub may_report : Contract → OracleStatus → Bool
may_report c next = ltb (rank c.oracle_status) (rank next)

-- What a status writes into the resolution state: only `Final` does.
abbrev pub resolve_state : OracleStatus → ContractState → ContractState
resolve_state (final o) s = resolved o
resolve_state silent s = s
resolve_state in_progress s = s

unfoldable pub set_oracle_status : Contract → OracleStatus → Contract
set_oracle_status c status = record c {
  oracle_status = status;
  state = resolve_state status c.state;
}

-- The stall exit: a silent oracle, and strictly more than the grace after the event date.
stall_exit : OracleStatus → Option Ts → Ts → Result NotYet Outcome
stall_exit silent (some exit) now = if ltb exit now then ok void else err not_yet
stall_exit silent none now = err not_yet
stall_exit in_progress exit now = err not_yet
stall_exit (final o) exit now = err not_yet

outcome_of : ContractState → OracleStatus → Option Ts → Ts → Result NotYet Outcome
unfolding stall_exit
outcome_of (resolved o) status exit now = ok o
outcome_of unresolved status exit now = stall_exit status exit now

-- `Contract::outcome`.
unfoldable pub outcome : Contract → Ts → Dur → Result NotYet Outcome
unfolding outcome_of
outcome c now stall_grace = outcome_of c.state c.oracle_status (ts_add c.event_date stall_grace) now

unfoldable pub payout_goes_to_requester : Outcome → Side → Option Bool
payout_goes_to_requester yes_outcome yes_side = some true
payout_goes_to_requester no_outcome no_side = some true
payout_goes_to_requester yes_outcome no_side = some false
payout_goes_to_requester no_outcome yes_side = some false
payout_goes_to_requester void yes_side = none
payout_goes_to_requester void no_side = none
