-- ===== src/Chain/Custody/Conservation.antt =====
-- crates/chain/src/custody.rs: the conservation invariant, and the account operations under it.
use rfq_matching_settlement.Prelude.{
  ℕ, zero, suc, ◌+◌, ◌≤◌, ◌<◌, ◌≡◌, refl, inl, inr, arith, Option-cases, Bool-cases, ltb, get_elem?,
  length, sum_by, sum_by-set, le-sum_by, All, length-set, u32_max, u64_max, if◌then◌else◌,
  saturating_add, replicate, ◌-◌,
}
use rfq_matching_settlement.Prelude.Result.{is_ok}
use rfq_matching_settlement.Core.Types.{Amount, Ts, Dur, AccountIdx}
use rfq_matching_settlement.Chain.Escrow.{Escrow, is_locked}
use rfq_matching_settlement.Chain.Custody.{
  CustodyLedger, Balance, deposit, request_withdrawal, execute_withdrawal, log_balance, payable,
  execute_from, execute_matured_withdrawals, new_ledger,
}

-- What a locked escrow holds; a settled one holds nothing.
abbrev pub held : Escrow → Amount
held e = if is_locked e then e.requester_contribution + e.maker_contribution else 0

-- Both parties of an escrow have an account.
abbrev pub HasParties : ℕ → Escrow → Type 0
HasParties n e = (e.requester < n) × (e.maker < n)

abbrev pub balance_of : Balance → Amount
balance_of b = b.balance

-- Every unit ever deposited is a withdrawal, a balance or the content of a locked escrow.
pub record IsSound (l : CustodyLedger) : Type 0 where
  pub conserved : l.deposited ≡ l.withdrawn + sum_by balance_of l.balances + sum_by held l.escrows
  pub bounded : l.deposited ≤ u64_max
  pub parties : All (HasParties (length l.balances)) l.escrows

pub deposit-IsSound :
    (a : AccountIdx) (x : Amount) (l : CustodyLedger) → IsSound l → IsSound (deposit a x l).1
unfolding deposit log_balance
deposit-IsSound a x l v = elim (Option-cases (get_elem? l.balances a)) [
  | inl e ↦ ground arith
  | inr (b, e) ↦ ground (
    arith,
    sum_by-set balance_of l.balances a (record b { balance = b.balance + x }) e,
    length-set l.balances a (record b { balance = b.balance + x }),
  )
]

pub log_balance-IsSound :
    (a : AccountIdx) (l : CustodyLedger) → IsSound l → IsSound (log_balance a l)
unfolding log_balance
log_balance-IsSound a l v = ground arith

pub request_withdrawal-IsSound :
    (a : AccountIdx) (x : Amount) (now : Ts) (l : CustodyLedger)
    → IsSound l
    → IsSound (request_withdrawal a x now l).1
unfolding request_withdrawal log_balance
request_withdrawal-IsSound a x now l v = elim (Option-cases (get_elem? l.balances a)) [
  | inl e ↦ ground arith
  | inr (b, e) ↦ ground (
    arith,
    sum_by-set balance_of l.balances a
        (record b { pending = x; matures_at = now + l.withdrawal_delay }) e,
    length-set l.balances a (record b { pending = x; matures_at = now + l.withdrawal_delay }),
  )
]

pub execute_withdrawal-IsSound :
    (a : AccountIdx) (now : Ts) (l : CustodyLedger)
    → IsSound l
    → IsSound (execute_withdrawal a now l).1
unfolding execute_withdrawal log_balance
execute_withdrawal-IsSound a now l v = elim (Option-cases (get_elem? l.balances a)) [
  | inl e ↦ ground arith
  | inr (b, e) ↦
      let paid : Balance = record b { balance = b.balance - payable b; pending = 0 } in
      ground (
        arith,
        sum_by-set balance_of l.balances a paid e,
        le-sum_by balance_of l.balances a e,
        length-set l.balances a paid,
      )
]

execute_from-IsSound :
    (rounds : ℕ) (a : AccountIdx) (now : Ts) (n : ℕ) (l : CustodyLedger)
    → IsSound l
    → IsSound (execute_from rounds a now n l).1
unfolding execute_from
execute_from-IsSound zero a now n l v = v
execute_from-IsSound (suc rounds) a now n l v =
    let rest =
      execute_from-IsSound rounds (a + 1) now
        (if is_ok (execute_withdrawal a now l).0 then saturating_add u32_max n 1 else n)
        (execute_withdrawal a now l).1 (execute_withdrawal-IsSound a now l v) in
    elim (Bool-cases (ltb u32_max a)) [ inl e ↦ rw e v | inr e ↦ rw e rest ]

pub execute_matured_withdrawals-IsSound :
    (now : Ts) (l : CustodyLedger) → IsSound l → IsSound (execute_matured_withdrawals now l).1
unfolding execute_matured_withdrawals
execute_matured_withdrawals-IsSound now l v = execute_from-IsSound (length l.balances) 0 now 0 l v

replicate_zero :
    (n : ℕ)
    → sum_by balance_of (replicate n (record { balance = 0; pending = 0; matures_at = 0 })) ≡ 0
replicate_zero zero = refl
replicate_zero (suc n) = omega (arith, replicate_zero n)

pub new_ledger-IsSound :
    (delay : Dur) (accounts escrows : ℕ) → IsSound (new_ledger delay accounts escrows)
unfolding new_ledger
new_ledger-IsSound delay accounts escrows = record {
  conserved = omega (arith, replicate_zero accounts);
  bounded = omega arith;
  parties = tt;
}
