-- ===== src/Core/Command.antt =====
-- crates/core/src/command.rs: what the engine can be asked to do.
use rfq_matching_settlement.Prelude.{ℕ, List}
use rfq_matching_settlement.Core.Types.{Amount, Price, Size, Ts, Side, LegId, AccountIdx, EscrowId}
use rfq_matching_settlement.Core.Contract.{ContractIdx, OracleStatus}
use rfq_matching_settlement.Core.Settlement.{Nonce, TxStatus}
use rfq_matching_settlement.Core.Slab.{Handle}

pub record LegSpec : Type 0 where
  pub contract : ContractIdx
  pub side : Side
  pub size : Size
  pub limit : Price

pub record ExpectedFill : Type 0 where
  pub leg : LegId
  pub price : Price

pub data Command : Type 0 where
  credit_account : (account : AccountIdx) → (free : Amount) → Command
  register_contract : (contract : ContractIdx) → (event_date : Ts) → Command
  submit_request :
      (requester : AccountIdx) → (deadline : Ts) → (legs : List LegSpec) → (n_legs : ℕ) → Command
  reject_request : (request : Handle) → Command
  submit_quote :
      (maker : AccountIdx)
      → (request : Handle) → (leg : LegId) → (price : Price) → (size : Size) → (expires_at : Ts)
      → Command
  cancel_quote : (quote : Handle) → Command
  report_oracle_status : (contract : ContractIdx) → (status : OracleStatus) → Command
  settle_escrow : (escrow : EscrowId) → (contract : ContractIdx) → Command
  poll_settlement : (nonce : Nonce) → (status : TxStatus) → Command
  accept_request : (request : Handle) → (expected : List ExpectedFill) → (n_legs : ℕ) → Command
