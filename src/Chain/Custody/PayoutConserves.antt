-- ===== src/Chain/Custody/PayoutConserves.antt =====
-- crates/chain/src/custody.rs, `settle_escrow`: a payout moves an escrow's content to its parties.
use rfq_matching_settlement.Prelude.{
  ℕ, ◌+◌, ◌≤◌, ◌<◌, ◌≡◌, inl, inr, Bool, true, false, Option, none, some, arith, Option-cases,
  get_elem?, get_elem?-some, length, sum_by, sum_by-set, le-sum_by, All-set, All-get, length-set,
  u64_max, saturating_add,
}
use rfq_matching_settlement.Core.Types.{Amount, AccountIdx, EscrowId}
use rfq_matching_settlement.Core.Contract.{ContractIdx, Outcome, payout_goes_to_requester}
use rfq_matching_settlement.Chain.Escrow.{Escrow, is_locked}
use rfq_matching_settlement.Chain.Custody.{CustodyLedger, Balance, log_balance}
use rfq_matching_settlement.Chain.Custody.Payout.{
  Credits, credits_of, credit, pay, paid_out, settle_escrow,
}
use rfq_matching_settlement.Chain.Custody.Conservation.{IsSound, held, HasParties, balance_of}

abbrev pub total : CustodyLedger → ℕ
total l = sum_by balance_of l.balances

abbrev pub accounts : CustodyLedger → ℕ
accounts l = length l.balances

-- The balances hold `x` more, and the rest of the books is as it was.
abbrev pub Adds : Amount → CustodyLedger → CustodyLedger → Type 0
Adds x l l' =
    (total l' ≡ total l + x)
    × (accounts l' ≡ accounts l)
    × (l'.escrows ≡ l.escrows)
    × (l'.deposited ≡ l.deposited)
    × (l'.withdrawn ≡ l.withdrawn)

-- A credit within the bound adds exactly its amount to one account and touches nothing else.
pub credit_lem :
    (a : AccountIdx) (x : Amount) (l : CustodyLedger)
    → a < accounts l
    → total l + x ≤ u64_max
    → Adds x l (credit (a, x) l)
unfolding credit
credit_lem a x l h fits =
    let (b, e) = get_elem?-some l.balances a h in
    let b' : Balance = record b { balance = saturating_add u64_max b.balance x } in
    ground (
      arith,
      e,
      sum_by-set balance_of l.balances a b' e,
      le-sum_by balance_of l.balances a e,
      length-set l.balances a b',
    )

-- The two credits of a payout add up to the escrow's content, and name its parties.
pub credits_total :
    (side : Option Bool) (e : Escrow)
    → e.requester_contribution + e.maker_contribution ≤ u64_max
    → (credits_of side e).first.1 + (credits_of side e).second.1
      ≡ e.requester_contribution + e.maker_contribution
credits_total (some true) e h = ground arith
credits_total (some false) e h = ground arith
credits_total none e h = ground arith

pub credits_parties :
    (side : Option Bool) (e : Escrow) {n : ℕ}
    → HasParties n e
    → ((credits_of side e).first.0 < n) × ((credits_of side e).second.0 < n)
credits_parties (some true) e h = h
credits_parties (some false) e h = (h.1, h.0)
credits_parties none e h = h

credit_both :
    (c : Credits) (l : CustodyLedger)
    → c.first.0 < accounts l
    → c.second.0 < accounts l
    → total l + (c.first.1 + c.second.1) ≤ u64_max
    → Adds (c.first.1 + c.second.1) l (credit c.second (credit c.first l))
credit_both c l h k fits =
    ground
      (arith, credit_lem c.first.0 c.first.1 l, credit_lem c.second.0 c.second.1 (credit c.first l))

pay-IsSound :
    (id : EscrowId) (o : Outcome) (e : Escrow) (l : CustodyLedger)
    → IsSound l
    → get_elem? l.escrows id ≡ some e
    → is_locked e ≡ true
    → IsSound (pay id o e l)
unfolding pay log_balance
pay-IsSound id o e l v found open_escrow =
    let side = payout_goes_to_requester o e.side in
    let c = credits_of side e in
    let content = le-sum_by held l.escrows id found in
    let total_eq = credits_total side e (ground (arith, content)) in
    let parties =
      credits_parties side e (All-get (HasParties (accounts l)) l.escrows id v.parties found) in
    let both = credit_both c l parties.0 parties.1 (ground (arith, content, total_eq)) in
    ground (
      arith,
      content,
      total_eq,
      both,
      sum_by-set held l.escrows id (paid_out e) found,
      All-set (HasParties (accounts l)) l.escrows id (paid_out e) v.parties
          (All-get (HasParties (accounts l)) l.escrows id v.parties found),
    )

pub settle_escrow-IsSound :
    (id : EscrowId) (k : ContractIdx) (o : Outcome) (l : CustodyLedger)
    → IsSound l
    → IsSound (settle_escrow id k o l).1
unfolding settle_escrow
settle_escrow-IsSound id k o l v = elim (Option-cases (get_elem? l.escrows id)) [
  | inl e ↦ ground arith
  | inr (x, e) ↦ ground (arith, e, pay-IsSound id o x l v e)
]
