-- ===== src/Chain/Custody.antt =====
-- crates/chain/src/custody.rs: balances, escrows, nonces and the withdrawal timelock. Chain time
-- is an argument, sampled once for each call as the source samples its clock.
use rfq_matching_settlement.Prelude.{
  ℕ, zero, suc, ◌+◌, ◌-◌, Bool, true, false, ◌&&◌, Option, none, some, List, [], ◌∷◌, ◌++◌, length,
  get_elem?, set, replicate, ltb, leb, ◌==◌, if◌then◌else◌, u32_max, u64_max, saturating_add,
  saturating_sub,
}
use rfq_matching_settlement.Prelude.Result.{is_ok}
use rfq_matching_settlement.Prelude.Action.{Action, ◌>>=◌, ◌>>◌, pure, gets, modify, ok_or, err_if}
use rfq_matching_settlement.Core.Types.{Amount, Ts, Dur, AccountIdx, EscrowId, amount_add, ts_add}
use rfq_matching_settlement.Core.Contract.{ContractIdx, Outcome, payout_goes_to_requester}
use rfq_matching_settlement.Core.Settlement.{
  Nonce, nonce_eq, TxStatus, unknown, pending, settled, reverted,
}
use rfq_matching_settlement.Chain.Bundle.{Bundle}
use rfq_matching_settlement.Chain.Escrow.{Escrow, notional, is_locked, new_locked, mark_settled}
use rfq_matching_settlement.Chain.Log.{
  ChainLog, balance_changed, settlement_resolved, empty_log, append,
}
pub mod Payout
pub mod Transaction
pub mod Inclusion
pub mod Conservation
pub mod PayoutConserves
pub mod PayoutShares
pub mod DebitTable
pub mod Tally
pub mod Commit
pub mod Settle
pub mod History

pub data CustodyError : Type 0 where
  unknown_account insufficient_available withdrawal_already_pending : CustodyError
  no_withdrawal_pending withdrawal_not_matured amount_overflow : CustodyError
  unknown_escrow escrow_contract_mismatch : CustodyError

pub record Balance : Type 0 where
  pub balance : Amount
  pub pending : Amount
  pub matures_at : Ts

-- `Balance::available`.
abbrev pub available_of : Balance → Amount
available_of b = saturating_sub b.balance b.pending

pub record CustodyLedger : Type 0 where
  pub balances : List Balance
  pub escrows : List Escrow
  pub max_escrows : ℕ
  pub resolved : List (Nonce × TxStatus)
  pub pending : List Bundle
  pub withdrawal_delay : Dur
  pub deposited : Amount
  pub withdrawn : Amount
  pub log : ChainLog

-- `Custody::new`, as far as the ledger goes.
unfoldable pub new_ledger : Dur → ℕ → ℕ → CustodyLedger
new_ledger delay max_accounts max_escrows = record {
  balances = replicate max_accounts (record { balance = 0; pending = 0; matures_at = 0 });
  escrows = [];
  max_escrows = max_escrows;
  resolved = [];
  pending = [];
  withdrawal_delay = delay;
  deposited = 0;
  withdrawn = 0;
  log = empty_log;
}

-- `Option::map_or` over an account's entry.
abbrev pub balance_or_zero : Option Balance → Amount
balance_or_zero none = 0
balance_or_zero (some b) = b.balance

abbrev pub available_or_zero : Option Balance → Amount
available_or_zero none = 0
available_or_zero (some b) = available_of b

-- `CustodyLedger::balance`, `CustodyLedger::available`.
abbrev pub balance_in : CustodyLedger → AccountIdx → Amount
balance_in l account = balance_or_zero (get_elem? l.balances account)

abbrev pub available_in : CustodyLedger → AccountIdx → Amount
available_in l account = available_or_zero (get_elem? l.balances account)

unfoldable pub log_balance : AccountIdx → CustodyLedger → CustodyLedger
log_balance account l = record l {
  log = append (balance_changed account (available_in l account)) l.log;
}

-- `BTreeMap::get` on the resolved nonces.
abbrev pub lookup_nonce : Nonce → List (Nonce × TxStatus) → Option TxStatus
lookup_nonce n [] = none
lookup_nonce n ((m, s) ∷ r) = if nonce_eq n m then some s else lookup_nonce n r

-- `BTreeMap::insert`: a present key is overwritten.
abbrev pub insert_nonce : Nonce → TxStatus → List (Nonce × TxStatus) → List (Nonce × TxStatus)
insert_nonce n s [] = (n, s) ∷ []
insert_nonce n s ((m, t) ∷ r) = if nonce_eq n m then (m, s) ∷ r else (m, t) ∷ insert_nonce n s r

is_settled : Option TxStatus → Bool
is_settled (some settled) = true
is_settled (some reverted) = false
is_settled (some unknown) = false
is_settled (some pending) = false
is_settled none = false

unfoldable pub nonce_used : CustodyLedger → Nonce → Bool
unfolding is_settled
nonce_used l n = is_settled (lookup_nonce n l.resolved)

-- `pending.iter().any(|bundle| bundle.nonce == nonce)`.
any_pending : Nonce → List Bundle → Bool
any_pending n [] = false
any_pending n (b ∷ bs) = if nonce_eq b.nonce n then true else any_pending n bs

status_from : Option TxStatus → Bool → TxStatus
status_from (some s) queued = s
status_from none true = pending
status_from none false = unknown

-- `CustodyLedger::status`: a terminal answer wins over the queue.
unfoldable pub status : CustodyLedger → Nonce → TxStatus
unfolding any_pending status_from
status l n = status_from (lookup_nonce n l.resolved) (any_pending n l.pending)

abbrev pub write_balance : AccountIdx → Balance → CustodyLedger → CustodyLedger
write_balance account b l = record l { balances = set l.balances account b }

unfoldable pub deposit : AccountIdx → Amount → Action CustodyLedger CustodyError (Unit {0})
deposit account amount = do
  total ← gets (λ l. l.deposited)
  deposited ← ok_or (amount_add total amount) amount_overflow
  found ← gets (λ l. get_elem? l.balances account)
  entry ← ok_or found unknown_account
  balance ← ok_or (amount_add entry.balance amount) amount_overflow
  modify (write_balance account (record entry { balance = balance }))
  modify (λ l. record l { deposited = deposited })
  modify (log_balance account)

unfoldable pub request_withdrawal : AccountIdx → Amount → Ts → Action CustodyLedger CustodyError Ts
request_withdrawal account amount now = do
  delay ← gets (λ l. l.withdrawal_delay)
  found ← gets (λ l. get_elem? l.balances account)
  entry ← ok_or found unknown_account
  err_if (ltb 0 entry.pending) withdrawal_already_pending
  err_if (ltb (available_of entry) amount) insufficient_available
  matures_at ← ok_or (ts_add now delay) amount_overflow
  modify (write_balance account (record entry { pending = amount; matures_at = matures_at }))
  modify (log_balance account)
  pure matures_at

-- What a matured withdrawal pays out: what was asked for, or what is there if that is less.
abbrev pub payable : Balance → Amount
payable b = if leb b.pending b.balance then b.pending else b.balance

unfoldable pub execute_withdrawal : AccountIdx → Ts → Action CustodyLedger CustodyError Amount
execute_withdrawal account now = do
  found ← gets (λ l. get_elem? l.balances account)
  entry ← ok_or found unknown_account
  err_if (entry.pending == 0) no_withdrawal_pending
  err_if (ltb now entry.matures_at) withdrawal_not_matured
  let amount = payable entry
  modify (
      write_balance account
        (record entry { balance = saturating_sub entry.balance amount; pending = 0 }))
  modify (λ l. record l { withdrawn = saturating_add u64_max l.withdrawn amount })
  modify (log_balance account)
  pure amount

-- Accounts `index ..`, `rounds` of them, as far as the index fits a u32; a refusal changes nothing
-- and is not counted.
unfoldable pub execute_from : ℕ → AccountIdx → Ts → ℕ → CustodyLedger → ℕ × CustodyLedger
execute_from zero index now executed l = (executed, l)
execute_from (suc rounds) index now executed l =
    let (r, l') = execute_withdrawal index now l in
    let rest =
      execute_from rounds (index + 1) now
        (if is_ok r then saturating_add u32_max executed 1 else executed) l' in
    if ltb u32_max index then (executed, l) else rest

unfoldable pub execute_matured_withdrawals : Ts → CustodyLedger → ℕ × CustodyLedger
unfolding execute_from
execute_matured_withdrawals now l = execute_from (length l.balances) 0 now 0 l
