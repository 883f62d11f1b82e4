-- ===== src/Chain/Custody/History.antt =====
-- crates/chain/src/custody.rs: histories of custody calls. The hook of a settlement performs
-- ordinary calls, at the instant that the settlement sampled.
pub mod Conserves
pub mod Frame
pub mod Finality
pub mod Overturns
pub mod Pending
pub mod Timelock
pub mod Drain
use rfq_matching_settlement.Prelude.{
  ℕ, zero, suc, ◌+◌, ◌≡◌, Option, none, some, List, [], ◌∷◌, ◌++◌, length,
}
use rfq_matching_settlement.Core.Types.{Amount, Ts, Dur, AccountIdx, EscrowId}
use rfq_matching_settlement.Core.Contract.{ContractIdx, Outcome}
use rfq_matching_settlement.Core.Settlement.{Nonce, TxStatus}
use rfq_matching_settlement.Chain.Bundle.{Bundle}
use rfq_matching_settlement.Chain.Custody.{
  CustodyLedger, deposit, request_withdrawal, execute_withdrawal, execute_matured_withdrawals,
}
use rfq_matching_settlement.Chain.Custody.Payout.{settle_escrow}
use rfq_matching_settlement.Chain.Custody.Inclusion.{
  Hook, IncludedTx, submit, include_next, drop_next_submission,
}

-- The calls of the ledger itself.
pub data Call : Type 0 where
  deposits : AccountIdx → Amount → Call
  requests : AccountIdx → Amount → Ts → Call
  executes : AccountIdx → Ts → Call
  executes_matured : Ts → Call
  pays_out : EscrowId → ContractIdx → Outcome → Call

unfoldable pub perform : Call → CustodyLedger → CustodyLedger
perform (deposits a x) l = (deposit a x l).1
perform (requests a x now) l = (request_withdrawal a x now l).1
perform (executes a now) l = (execute_withdrawal a now l).1
perform (executes_matured now) l = (execute_matured_withdrawals now l).1
perform (pays_out id k o) l = (settle_escrow id k o l).1

unfoldable pub perform_all : List Call → CustodyLedger → CustodyLedger
perform_all [] l = l
perform_all (c ∷ cs) l = perform_all cs (perform c l)

-- A hook that makes calls chosen by the instant.
abbrev pub entry_hook : (Ts → List Call) → Hook
entry_hook calls = some (λ l now. perform_all (calls now) l)

-- What happens on the chain.
pub data ChainStep : Type 0 where
  calls : Call → ChainStep
  submits : Bundle → ChainStep
  includes : (Ts → List Call) → Ts → ChainStep
  drops : ChainStep

unfoldable pub step : ChainStep → CustodyLedger → CustodyLedger
step (calls c) l = perform c l
step (submits b) l = (submit b l).1
step (includes hook now) l = (include_next (entry_hook hook) now l).1
step drops l = (drop_next_submission l).1

unfoldable pub run : List ChainStep → CustodyLedger → CustodyLedger
run [] l = l
run (s ∷ ss) l = run ss (step s l)
