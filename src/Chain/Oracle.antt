-- ===== src/Chain/Oracle.antt =====
-- crates/chain/src/oracle.rs: the optimistic oracle. Its clock is an argument, and its map is an
-- association list with one entry for each contract.
pub mod Histories
pub mod Window
use rfq_matching_settlement.Prelude.{
  ℕ, Bool, true, false, not, Option, none, some, List, [], ◌∷◌, ltb, ◌==◌, if◌then◌else◌,
}
use rfq_matching_settlement.Prelude.Result
use rfq_matching_settlement.Prelude.Result.{Result, ok, err}
use rfq_matching_settlement.Prelude.Action.{Action}
use rfq_matching_settlement.Core.Types.{Ts, Dur, AccountIdx, ts_add}
use rfq_matching_settlement.Core.Contract.{
  ContractIdx, Outcome, OracleStatus, silent, in_progress, final,
}

pub data OracleError : Type 0 where
  already_proposed nothing_proposed window_open contested_already already_final : OracleError
  not_the_escalation_authority : OracleError

pub data Proposal : Type 0 where
  proposed : (outcome : Outcome) → (window_closes : Ts) → Proposal
  contested : Proposal
  decided : Outcome → Proposal

pub record Oracle : Type 0 where
  pub challenge_window : Dur
  pub escalation_authority : AccountIdx
  pub contracts : List (ContractIdx × Proposal)

-- `Oracle::new`.
unfoldable pub new_oracle : Dur → AccountIdx → Oracle
new_oracle window authority = record {
  challenge_window = window;
  escalation_authority = authority;
  contracts = [];
}

-- `BTreeMap::get`, `BTreeMap::insert`.
abbrev pub lookup : ContractIdx → List (ContractIdx × Proposal) → Option Proposal
lookup k [] = none
lookup k ((j, p) ∷ r) = if k == j then some p else lookup k r

abbrev pub put :
    ContractIdx → Proposal → List (ContractIdx × Proposal) → List (ContractIdx × Proposal)
put k p [] = (k, p) ∷ []
put k p ((j, old) ∷ r) = if k == j then (j, p) ∷ r else (j, old) ∷ put k p r

abbrev pub status_of : Option Proposal → OracleStatus
status_of none = silent
status_of (some (proposed o t)) = in_progress
status_of (some contested) = in_progress
status_of (some (decided o)) = final o

-- `Oracle::status`.
unfoldable pub status : Oracle → ContractIdx → OracleStatus
status s k = status_of (lookup k s.contracts)

abbrev pub record_proposal : ContractIdx → Proposal → Oracle → Oracle
record_proposal k p s = record s { contracts = put k p s.contracts }

-- `Oracle::propose`.
unfoldable pub propose : ContractIdx → Outcome → Ts → Action Oracle OracleError Ts
propose k o now s = elim (lookup k s.contracts) [
  | some (decided p) ↦ (err already_final, s)
  | some (proposed p t) ↦ (err already_proposed, s)
  | some contested ↦ (err already_proposed, s)
  | none ↦ elim (ts_add now s.challenge_window) [
    | none ↦ (err window_open, s)
    | some closes ↦ (ok closes, record_proposal k (proposed o closes) s)
  ]
]

-- `Oracle::contest`.
unfoldable pub contest : ContractIdx → Action Oracle OracleError (Unit {0})
contest k s = elim (lookup k s.contracts) [
  | some (proposed o t) ↦ (ok tt, record_proposal k contested s)
  | some contested ↦ (ok tt, s)
  | some (decided o) ↦ (err already_final, s)
  | none ↦ (err nothing_proposed, s)
]

-- `Oracle::finalise`.
unfoldable pub finalise : ContractIdx → Ts → Action Oracle OracleError Outcome
finalise k now s = elim (lookup k s.contracts) [
  | some (proposed o closes) ↦
      if ltb now closes then (err window_open, s) else (ok o, record_proposal k (decided o) s)
  | some contested ↦ (err contested_already, s)
  | some (decided o) ↦ (err already_final, s)
  | none ↦ (err nothing_proposed, s)
]

-- `Oracle::escalate`.
unfoldable pub escalate : ContractIdx → Outcome → AccountIdx → Action Oracle OracleError (Unit {0})
escalate k o who s =
    if not (who == s.escalation_authority)
    then (err not_the_escalation_authority, s)
    else elim (lookup k s.contracts) [
      | some (decided p) ↦ (err already_final, s)
      | some (proposed p t) ↦ (ok tt, record_proposal k (decided o) s)
      | some contested ↦ (ok tt, record_proposal k (decided o) s)
      | none ↦ (ok tt, record_proposal k (decided o) s)
    ]
