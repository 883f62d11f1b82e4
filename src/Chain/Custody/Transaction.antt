-- ===== src/Chain/Custody/Transaction.antt =====
-- crates/chain/src/custody.rs: validation, settlement and inclusion of a bundle.
use rfq_matching_settlement.Prelude.{
  ℕ, ◌+◌, Bool, true, false, Option, none, some, List, [], ◌∷◌, get_elem?, replicate, ltb, leb,
  ◌==◌, if◌then◌else◌, u8_max,
}
use rfq_matching_settlement.Prelude.Partial
use rfq_matching_settlement.Prelude.Result.{Result, ok, err_if, ok_or, ◌>>=◌, ◌>>◌}
use rfq_matching_settlement.Core.Types.{Amount, Ts, AccountIdx, amount_add}
use rfq_matching_settlement.Core.Config.{max_legs_bound}
use rfq_matching_settlement.Chain.Bundle.{
  Bundle, BundleLeg, legs, requester_contribution, maker_contribution,
}
use rfq_matching_settlement.Chain.Custody.{CustodyLedger, Balance, balance_in, nonce_used}

pub data SettleError : Type 0 where
  nonce_reused : SettleError
  quote_expired : (leg : ℕ) → SettleError
  insufficient_funds : (account : AccountIdx) → SettleError
  escrow_capacity_exhausted unknown_account no_legs too_many_legs amount_overflow : SettleError

-- `Debits`: the stack table of at most `MAX_LEGS + 1` accounts.
abbrev pub Debits : Type 0
Debits = List (Option (AccountIdx × Amount))

abbrev pub no_debits : Debits
no_debits = replicate (max_legs_bound + 1) none

-- `Debits::add`: the first slot that names the account, or the first that is free.
unfoldable pub add_debit : AccountIdx → Amount → Debits → Option Debits
add_debit account amount [] = none
add_debit account amount (none ∷ r) = some (some (account, amount) ∷ r)
add_debit account amount (some (existing, total) ∷ r) =
    let rest =
      Partial.◌>>=◌ (add_debit account amount r) (λ r'. some (some (existing, total) ∷ r')) in
    if existing == account
    then Partial.◌>>=◌ (amount_add total amount) (λ t. some (some (existing, t) ∷ r))
    else rest

-- `Debits::entries`.
abbrev pub entries : Debits → List (AccountIdx × Amount)
entries [] = []
entries (none ∷ r) = entries r
entries (some e ∷ r) = e ∷ entries r

-- `u8::try_from(index).unwrap_or(u8::MAX)`.
abbrev pub leg_id : ℕ → ℕ
leg_id index = if leb index u8_max then index else u8_max

-- The debits of one leg: the maker's, then the requester's.
unfoldable pub debit_leg : AccountIdx → Ts → ℕ → BundleLeg → Debits → Result SettleError Debits
unfolding add_debit
debit_leg requester now index leg debits = do
  err_if (leb leg.quote_expiry now) (quote_expired (leg_id index))
  maker ← ok_or (maker_contribution leg) amount_overflow
  own ← ok_or (requester_contribution leg) amount_overflow
  debits' ← ok_or (add_debit leg.maker maker debits) amount_overflow
  ok_or (add_debit requester own debits') amount_overflow

unfoldable pub debit_legs :
    AccountIdx → Ts → ℕ → List BundleLeg → Debits → Result SettleError Debits
debit_legs requester now index [] debits = ok debits
debit_legs requester now index (leg ∷ rest) debits = do
  debits' ← debit_leg requester now index leg debits
  debit_legs requester now (index + 1) rest debits'

account_exists : Option Balance → Bool
account_exists none = false
account_exists (some b) = true

-- Balance, not availability.
unfoldable pub check_entries :
    CustodyLedger → List (AccountIdx × Amount) → Result SettleError (Unit {0})
unfolding account_exists
check_entries l [] = ok tt
check_entries l ((account, amount) ∷ r) = do
  err_if (if account_exists (get_elem? l.balances account) then false else true) unknown_account
  err_if (ltb (balance_in l account) amount) (insufficient_funds account)
  check_entries l r

-- `Custody::validate`.
unfoldable pub validate : CustodyLedger → Bundle → Ts → Result SettleError Debits
validate l bundle now = do
  err_if (bundle.n_legs == 0) no_legs
  err_if (ltb max_legs_bound bundle.n_legs) too_many_legs
  err_if (nonce_used l bundle.nonce) nonce_reused
  debits ← debit_legs bundle.requester now 0 (legs bundle) no_debits
  check_entries l (entries debits)
  ok debits

-- `Custody::precheck`.
unfoldable pub precheck : CustodyLedger → Bundle → Ts → Result SettleError (Unit {0})
precheck l bundle now = do validate l bundle now; ok tt
