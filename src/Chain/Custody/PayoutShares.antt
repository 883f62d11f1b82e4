-- ===== src/Chain/Custody/PayoutShares.antt =====
-- crates/chain/src/custody.rs, `settle_escrow`: what each account receives, and how often.
use rfq_matching_settlement.Prelude.{
  ℕ, ◌+◌, ◌≤◌, ◌<◌, ◌≡◌, ap, inl, inr, true, false, some, arith, Option-cases, get_elem?,
  get_elem?-some, get_elem?-lt, get_elem?-set_self, get_elem?-set_ne, set, le-sum_by, All-get,
  u64_max, saturating_add, ◌==◌, if◌then◌else◌,
}
use native.Mathlib.Decide.{ℕ_discrete}
use rfq_matching_settlement.Prelude.Result.{ok}
use rfq_matching_settlement.Core.Types.{Amount, AccountIdx, EscrowId, Side, yes_side, no_side}
use rfq_matching_settlement.Core.Contract.{
  ContractIdx, Outcome, yes_outcome, no_outcome, void, payout_goes_to_requester,
}
use rfq_matching_settlement.Chain.Escrow.{Escrow, is_locked}
use rfq_matching_settlement.Chain.Custody.{CustodyLedger, Balance, balance_in, log_balance}
use rfq_matching_settlement.Chain.Custody.Payout.{credits_of, credit, pay, paid_out, settle_escrow}
use rfq_matching_settlement.Chain.Custody.Conservation.{IsSound, held, HasParties, balance_of}
use rfq_matching_settlement.Chain.Custody.PayoutConserves.{
  total, accounts, credit_lem, credits_total, credits_parties,
}

-- What an outcome assigns to an account, with the requester on the given side: the whole content
-- to the winner, or each contribution to whoever made it.
abbrev pub share : Outcome → Side → Escrow → AccountIdx → ℕ
share yes_outcome yes_side e a =
    if e.requester == a then e.requester_contribution + e.maker_contribution else 0
share no_outcome no_side e a =
    if e.requester == a then e.requester_contribution + e.maker_contribution else 0
share yes_outcome no_side e a =
    if e.maker == a then e.requester_contribution + e.maker_contribution else 0
share no_outcome yes_side e a =
    if e.maker == a then e.requester_contribution + e.maker_contribution else 0
share void s e a =
    (if e.requester == a then e.requester_contribution else 0)
    + (if e.maker == a then e.maker_contribution else 0)

balance-credit :
    (c : AccountIdx) (x : Amount) (l : CustodyLedger) (a : AccountIdx)
    → c < accounts l
    → total l + x ≤ u64_max
    → balance_in (credit (c, x) l) a ≡ balance_in l a + (if c == a then x else 0)
unfolding credit
balance-credit c x l a h fits =
    let (b, e) = get_elem?-some l.balances c h in
    let b' : Balance = record b { balance = saturating_add u64_max b.balance x } in
    let whole = le-sum_by balance_of l.balances c e in
    elim (ℕ_discrete c a) [
      | yes q ↦ ground (
        arith,
        e,
        whole,
        ap (get_elem? l.balances) q,
        ap (get_elem? (set l.balances c b')) q,
        get_elem?-set_self l.balances c b' h,
      )
      | no n ↦ ground (arith, e, get_elem?-set_ne l.balances c a b' n)
    ]

-- The two credits are what the outcome assigns.
credits-share :
    (o : Outcome) (s : Side) (e : Escrow) (a : AccountIdx)
    → e.requester_contribution + e.maker_contribution ≤ u64_max
    → let c = credits_of (payout_goes_to_requester o s) e in
      (if c.first.0 == a then c.first.1 else 0) + (if c.second.0 == a then c.second.1 else 0)
      ≡ share o s e a
unfolding payout_goes_to_requester
credits-share yes_outcome yes_side e a h = ground arith
credits-share no_outcome no_side e a h = ground arith
credits-share yes_outcome no_side e a h = ground arith
credits-share no_outcome yes_side e a h = ground arith
credits-share void yes_side e a h = ground arith
credits-share void no_side e a h = ground arith

balance-pay :
    (id : EscrowId) (o : Outcome) (e : Escrow) (l : CustodyLedger) (a : AccountIdx)
    → IsSound l
    → get_elem? l.escrows id ≡ some e
    → is_locked e ≡ true
    → balance_in (pay id o e l) a ≡ balance_in l a + share o e.side e a
unfolding pay log_balance
balance-pay id o e l a v found open_escrow =
    let side = payout_goes_to_requester o e.side in
    let c = credits_of side e in
    let content = le-sum_by held l.escrows id found in
    let fits : e.requester_contribution + e.maker_contribution ≤ u64_max =
      ground (arith, content) in
    let total_eq = credits_total side e fits in
    let parties =
      credits_parties side e (All-get (HasParties (accounts l)) l.escrows id v.parties found) in
    let one = credit_lem c.first.0 c.first.1 l parties.0 (ground (arith, content, total_eq)) in
    omega (
      arith,
      balance-credit c.first.0 c.first.1 l a parties.0 (ground (arith, content, total_eq)),
      balance-credit c.second.0 c.second.1 (credit c.first l) a (omega (arith, one.1, parties.1))
          (ground (arith, content, total_eq, one)),
      credits-share o e.side e a fits,
    )

-- What the payout of an escrow found, and left behind.
pub record IsPaid (id : EscrowId) (k : ContractIdx) (o : Outcome) (e : Escrow)
    (l l' : CustodyLedger) : Type 0 where
  pub found : get_elem? l.escrows id ≡ some e
  pub contract : e.contract ≡ k
  pub open_before : is_locked e ≡ true
  pub shares : (a : AccountIdx) → balance_in l' a ≡ balance_in l a + share o e.side e a
  pub spent : get_elem? l'.escrows id ≡ some (paid_out e)

escrows-pay :
    (id : EscrowId) (o : Outcome) (e : Escrow) (l : CustodyLedger)
    → (pay id o e l).escrows ≡ set l.escrows id (paid_out e)
unfolding pay log_balance
escrows-pay id o e l = ground arith

-- A call that pays found a locked escrow on the contract it names; each account receives what the
-- outcome assigns it through the escrow's side, and the escrow is spent. The books are sound.
pub settle_escrow_pays :
    (id : EscrowId) (k : ContractIdx) (o : Outcome) (l l' : CustodyLedger)
    → IsSound l
    → settle_escrow id k o l ≡ (ok true, l')
    → (e : Escrow) × IsPaid id k o e l l'
unfolding settle_escrow
settle_escrow_pays id k o l l' v h = elim (Option-cases (get_elem? l.escrows id)) [
  | inl q ↦ ground (arith, q)
  | inr (e, q) ↦
      let open_before : is_locked e ≡ true = ground (arith, q) in
      let same : pay id o e l ≡ l' = ground (arith, q) in
      let in_range = get_elem?-lt l.escrows id q in
      (
        e,
        record {
          found = q;
          contract = ground (arith, q);
          open_before = open_before;
          shares = λ a. rw (← same) (balance-pay id o e l a v q open_before);
          spent =
              rw (← same)
                (rw (escrows-pay id o e l) (get_elem?-set_self l.escrows id (paid_out e) in_range));
        },
      )
]

-- After a call that paid, the same call under any outcome pays nothing and changes nothing.
pub settle_escrow_once :
    (id : EscrowId) (k : ContractIdx) (o o' : Outcome) (l l' : CustodyLedger)
    → settle_escrow id k o l ≡ (ok true, l')
    → settle_escrow id k o' l' ≡ (ok false, l')
unfolding settle_escrow
settle_escrow_once id k o o' l l' h = elim (Option-cases (get_elem? l.escrows id)) [
  | inl q ↦ ground (arith, q)
  | inr (e, q) ↦
      let same : pay id o e l ≡ l' = ground (arith, q) in
      let spent : get_elem? l'.escrows id ≡ some (paid_out e) = rw (← same) (
        rw (escrows-pay id o e l)
          (get_elem?-set_self l.escrows id (paid_out e) (get_elem?-lt l.escrows id q))) in
      ground (arith, q, spent)
]
