-- ===== src/Chain/Custody/Settle/Accounts.antt =====
-- crates/chain/src/custody.rs, `Custody::settle`: what each account pays.
use rfq_matching_settlement.Prelude.{
  ◌+◌, ◌<◌, ◌≡◌, refl, ap, false, List, [], ◌∷◌, ◌++◌, map, arith, sum_by, All, get_elem?,
  get_elem?-set_self, get_elem?-set_ne, get_elem?-lt, set, saturating_sub,
}
use native.Mathlib.Decide.{ℕ_discrete}
use rfq_matching_settlement.Prelude.Result.{ok, err}
use rfq_matching_settlement.Core.Types.{Ts, Amount, AccountIdx}
use rfq_matching_settlement.Chain.Bundle.{Bundle, legs}
use rfq_matching_settlement.Chain.Custody.{
  CustodyLedger, Balance, balance_in, balance_or_zero, nonce_used,
}
use rfq_matching_settlement.Chain.Custody.Transaction.{Debits, entries, SettleError}
use rfq_matching_settlement.Chain.Custody.Inclusion.{
  Hook, run_hook, settle, escrow_for, SettleReceipt,
}
use rfq_matching_settlement.Chain.Custody.DebitTable.{Distinct, amount_of}
use rfq_matching_settlement.Chain.Custody.Tally.{IsCovered, charge}
use rfq_matching_settlement.Chain.Custody.Commit.{
  committed, debit_balance, debit_balances, IsCovered-set,
}
use rfq_matching_settlement.Chain.Custody.Settle.{IsAdmitted, reverts, applies, settle-Settles}

-- Each account loses what the entries hold for it.
balance-debit_balances :
    (a : AccountIdx) (es : List (AccountIdx × Amount)) (bs : List Balance)
    → Distinct es
    → All (IsCovered bs) es
    → balance_or_zero (get_elem? (debit_balances es bs) a) + amount_of a es
      ≡ balance_or_zero (get_elem? bs a)
unfolding debit_balances
balance-debit_balances a [] bs v c = omega arith
balance-debit_balances a ((k, x) ∷ es) bs v c =
    let (b, found, fits) = c.0 in
    let b' : Balance = record b { balance = saturating_sub b.balance x } in
    let rest = balance-debit_balances a es (set bs k b') v.1 (IsCovered-set k b' bs es v.0 c.1) in
    rw (found, debit_balance)
      (elim (ℕ_discrete k a) [
        | yes e ↦ ground (
          arith,
          rest,
          found,
          fits,
          ap (get_elem? bs) e,
          ap (get_elem? (set bs k b')) e,
          get_elem?-set_self bs k b' (get_elem?-lt bs k found),
        )
        | no n ↦ ground (arith, rest, get_elem?-set_ne bs k a b' n)
      ])

-- What an applied settlement did to the ledger that its hook left.
pub record IsApplied (b : Bundle) (now : Ts) (l l' : CustodyLedger) : Type 0 where
  pub live : All (λ leg. now < leg.quote_expiry) (legs b)
  pub fresh : nonce_used l b.nonce ≡ false
  pub charged :
      (a : AccountIdx) → balance_in l' a + sum_by (charge b.requester a) (legs b) ≡ balance_in l a
  pub formed : l'.escrows ≡ l.escrows ++ map (escrow_for b.requester) (legs b)
  pub queue : l'.pending ≡ l.pending
  pub totals : (l'.deposited ≡ l.deposited) × (l'.withdrawn ≡ l.withdrawn)

committed-IsApplied :
    (b : Bundle) (d : Debits) (now : Ts) (l : CustodyLedger)
    → IsAdmitted l b now d
    → IsApplied b now l (committed b d l)
unfolding committed
committed-IsApplied b d now l admitted = record {
  live = admitted.tally.live;
  fresh = admitted.fresh;
  charged = λ a. omega (
    arith,
    balance-debit_balances a (entries d) l.balances (admitted.tally.distinct tt) admitted.covered,
    admitted.tally.charged a,
  );
  formed = refl;
  queue = refl;
  totals = (refl, refl);
}

-- A settlement that succeeds found every quote live and the nonce unsettled at the instant it
-- sampled, took from each account exactly its contributions as maker and as requester, and formed
-- one locked escrow for each leg, in order, after those there.
pub settle_applies :
    (hook : Hook) (b : Bundle) (now : Ts) (l l' : CustodyLedger) (r : SettleReceipt)
    → settle hook b now l ≡ (ok r, l')
    → IsApplied b now (run_hook hook now l) l'
settle_applies hook b now l l' r h = elim (settle-Settles hook b now l) [
  | reverts e q ↦ ground arith
  | applies receipt d admitted fits q ↦
      let same : committed b d (run_hook hook now l) ≡ l' = ground arith in
      rw (← same) (committed-IsApplied b d now (run_hook hook now l) admitted)
]

-- A settlement that fails leaves the ledger as the hook left it: no leg settles on its own.
pub settle_reverts :
    (hook : Hook) (b : Bundle) (now : Ts) (l l' : CustodyLedger) (e : SettleError)
    → settle hook b now l ≡ (err e, l')
    → l' ≡ run_hook hook now l
settle_reverts hook b now l l' e h = elim (settle-Settles hook b now l) [
  | reverts c q ↦ ground arith
  | applies receipt d admitted fits q ↦ ground arith
]
