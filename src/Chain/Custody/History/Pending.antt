-- ===== src/Chain/Custody/History/Pending.antt =====
-- crates/chain/src/custody.rs: what each ledger call does to a pending withdrawal.
use rfq_matching_settlement.Prelude.{
  ℕ, zero, suc, ◌+◌, ◌<◌, ◌≡◌, ◌≢◌, refl, ap, inl, inr, Option, none, some, List, [], ◌∷◌, arith,
  Option-cases, Bool-cases, get_elem?, get_elem?-set_self, get_elem?-set_ne, get_elem?-lt, set, ltb,
  u32_max, u64_max, saturating_add, saturating_sub, if◌then◌else◌,
}
use native.Mathlib.Decide.{ℕ_discrete}
use rfq_matching_settlement.Prelude.Result.{is_ok}
use rfq_matching_settlement.Core.Types.{Ts, AccountIdx, Amount, EscrowId}
use rfq_matching_settlement.Core.Contract.{ContractIdx, Outcome, payout_goes_to_requester}
use rfq_matching_settlement.Chain.Escrow.{Escrow}
use rfq_matching_settlement.Chain.Custody.{
  CustodyLedger, Balance, deposit, request_withdrawal, execute_withdrawal, execute_from,
  log_balance, payable,
}
use rfq_matching_settlement.Chain.Custody.Payout.{settle_escrow, pay, credit, credits_of}
use rfq_matching_settlement.Chain.Custody.Commit.{debit_balance, debit_balances}

-- What an account has on its way out, and when it is due.
abbrev pub due : Option Balance → Option (Amount × Ts)
due none = none
due (some b) = some (b.pending, b.matures_at)

-- Account `a` has `x` on its way out, due at `t`.
abbrev pub Pends : AccountIdx → Amount → Ts → List Balance → Type 0
Pends a x t bs = due (get_elem? bs a) ≡ some (x, t)

-- Changing what an account holds, and not what it has pending, changes no pending withdrawal.
Pends-set :
    (a : AccountIdx) (x : Amount) (t : Ts) (bs : List Balance) (c : AccountIdx) (b b' : Balance)
    → get_elem? bs c ≡ some b
    → b'.pending ≡ b.pending
    → b'.matures_at ≡ b.matures_at
    → Pends a x t bs
    → Pends a x t (set bs c b')
Pends-set a x t bs c b b' found same_pending same_date h = elim (ℕ_discrete c a) [
  | yes e ↦ ground (
    arith,
    ap (get_elem? bs) e,
    ap (get_elem? (set bs c b')) e,
    get_elem?-set_self bs c b' (get_elem?-lt bs c found),
  )
  | no n ↦ rw (get_elem?-set_ne bs c a b' n) h
]

-- Another account's entry may change at will.
Pends-set_ne :
    (a : AccountIdx) (x : Amount) (t : Ts) (bs : List Balance) (c : AccountIdx) (b' : Balance)
    → c ≢ a
    → Pends a x t bs
    → Pends a x t (set bs c b')
Pends-set_ne a x t bs c b' n h = rw (get_elem?-set_ne bs c a b' n) h

module _ (a : AccountIdx) (x : Amount) (t : Ts) (asked : 0 < x) where
  abbrev pub Holds : CustodyLedger → Type 0
  Holds l = Pends a x t l.balances

  pub deposit-Holds :
      (c : AccountIdx) (y : Amount) (l : CustodyLedger) → Holds l → Holds (deposit c y l).1
  unfolding deposit log_balance
  deposit-Holds c y l h = elim (Option-cases (get_elem? l.balances c)) [
    | inl e ↦ ground arith
    | inr (b, e) ↦
        let kept =
          Pends-set a x t l.balances c b (record b { balance = b.balance + y }) e refl refl h in
        ground (arith, e, kept)
  ]

  -- An account with a withdrawal pending is refused another.
  pub request-Holds :
      (c : AccountIdx) (y : Amount) (now : Ts) (l : CustodyLedger)
      → Holds l
      → Holds (request_withdrawal c y now l).1
  unfolding request_withdrawal log_balance
  request-Holds c y now l h = elim (ℕ_discrete c a) [
    | yes e ↦ ground (arith, ap (get_elem? l.balances) e)
    | no n ↦
        let kept = λ (b' : Balance). Pends-set_ne a x t l.balances c b' n h in
        elim (Option-cases (get_elem? l.balances c)) [
          | inl e ↦ ground (arith, e)
          | inr (b, e) ↦
              ground
                (arith, e, kept (record b { pending = y; matures_at = now + l.withdrawal_delay }))
        ]
  ]

  -- Before the date, execution is refused for this account, whatever it does to others.
  pub execute-Holds :
      (c : AccountIdx) (now : Ts) (l : CustodyLedger)
      → now < t
      → Holds l
      → Holds (execute_withdrawal c now l).1
  unfolding execute_withdrawal log_balance
  execute-Holds c now l early h = elim (ℕ_discrete c a) [
    | yes e ↦ ground (arith, ap (get_elem? l.balances) e)
    | no n ↦ elim (Option-cases (get_elem? l.balances c)) [
      | inl e ↦ ground (arith, e)
      | inr (b, e) ↦
          let b' : Balance = record b {
            balance = saturating_sub b.balance (payable b);
            pending = 0;
          } in
          ground (arith, e, Pends-set_ne a x t l.balances c b' n h)
    ]
  ]

  pub execute_from-Holds :
      (rounds : ℕ) (c : AccountIdx) (now : Ts) (n : ℕ) (l : CustodyLedger)
      → now < t
      → Holds l
      → Holds (execute_from rounds c now n l).1
  unfolding execute_from
  execute_from-Holds zero c now n l early h = h
  execute_from-Holds (suc rounds) c now n l early h =
      let rest =
        execute_from-Holds rounds (c + 1) now
          (if is_ok (execute_withdrawal c now l).0 then saturating_add u32_max n 1 else n)
          (execute_withdrawal c now l).1 early (execute-Holds c now l early h) in
      elim (Bool-cases (ltb u32_max c)) [ inl e ↦ rw e h | inr e ↦ rw e rest ]

  credit-Holds :
      (c : AccountIdx) (y : Amount) (l : CustodyLedger) → Holds l → Holds (credit (c, y) l)
  unfolding credit
  credit-Holds c y l h = elim (Option-cases (get_elem? l.balances c)) [
    | inl e ↦ ground (arith, e)
    | inr (b, e) ↦
        let b' : Balance = record b { balance = saturating_add u64_max b.balance y } in
        ground (arith, e, Pends-set a x t l.balances c b b' e refl refl h)
  ]

  pay-Holds :
      (id : EscrowId) (o : Outcome) (e : Escrow) (l : CustodyLedger)
      → Holds l
      → Holds (pay id o e l)
  unfolding pay log_balance
  pay-Holds id o e l h =
      let c = credits_of (payout_goes_to_requester o e.side) e in
      credit-Holds c.second.0 c.second.1 (credit c.first l) (credit-Holds c.first.0 c.first.1 l h)

  pub settle_escrow-Holds :
      (id : EscrowId) (k : ContractIdx) (o : Outcome) (l : CustodyLedger)
      → Holds l
      → Holds (settle_escrow id k o l).1
  unfolding settle_escrow
  settle_escrow-Holds id k o l h = elim (Option-cases (get_elem? l.escrows id)) [
    | inl e ↦ ground (arith, e)
    | inr (f, e) ↦ ground (arith, e, pay-Holds id o f l h)
  ]

  pub debit_balances-Holds :
      (es : List (AccountIdx × Amount)) (bs : List Balance)
      → Pends a x t bs
      → Pends a x t (debit_balances es bs)
  unfolding debit_balances
  debit_balances-Holds [] bs h = h
  debit_balances-Holds ((c, y) ∷ es) bs h = elim (Option-cases (get_elem? bs c)) [
    | inl e ↦ rw (e, debit_balance) (debit_balances-Holds es bs h)
    | inr (b, e) ↦
        let b' : Balance = record b { balance = saturating_sub b.balance y } in
        rw (e, debit_balance)
          (debit_balances-Holds es (set bs c b') (Pends-set a x t bs c b b' e refl refl h))
  ]
