-- ===== src/Chain/Custody/Settle/Conserves.antt =====
-- crates/chain/src/custody.rs, `Custody::settle`: a settlement conserves every unit.
use rfq_matching_settlement.Prelude.{
  List, [], ◌∷◌, map, arith, length, sum_by-append, All, All-append,
}
use rfq_matching_settlement.Core.Types.{Ts, Amount, AccountIdx}
use rfq_matching_settlement.Chain.Bundle.{Bundle, BundleLeg, legs}
use rfq_matching_settlement.Chain.Custody.{CustodyLedger, Balance}
use rfq_matching_settlement.Chain.Custody.Transaction.{Debits, entries}
use rfq_matching_settlement.Chain.Custody.Inclusion.{Hook, run_hook, settle, escrow_for}
use rfq_matching_settlement.Chain.Custody.DebitTable.{Named}
use rfq_matching_settlement.Chain.Custody.Tally.{Named-lt, IsCovered}
use rfq_matching_settlement.Chain.Custody.Commit.{
  committed, sum-debit_balances, length-debit_balances, held-escrow_for,
}
use rfq_matching_settlement.Chain.Custody.Conservation.{IsSound, held, HasParties}
use rfq_matching_settlement.Chain.Custody.Settle.{IsAdmitted, reverts, applies, settle-Settles}

new_parties :
    (r : AccountIdx) (ls : List BundleLeg) (bs : List Balance) (es : List (AccountIdx × Amount))
    → All (IsCovered bs) es
    → All (λ leg. Named r es × Named leg.maker es) ls
    → All (HasParties (length bs)) (map (escrow_for r) ls)
new_parties r [] bs es c n = tt
new_parties r (leg ∷ ls) bs es c n =
    ((Named-lt r bs es c n.0.0, Named-lt leg.maker bs es c n.0.1), new_parties r ls bs es c n.1)

committed-IsSound :
    (b : Bundle) (d : Debits) (now : Ts) (l : CustodyLedger)
    → IsAdmitted l b now d
    → IsSound l
    → IsSound (committed b d l)
unfolding committed
committed-IsSound b d now l admitted v =
    let formed = map (escrow_for b.requester) (legs b) in
    let same = length-debit_balances (entries d) l.balances in
    record {
      conserved = omega (
        arith,
        v.conserved,
        admitted.tally.total,
        sum-debit_balances (entries d) l.balances (admitted.tally.distinct tt) admitted.covered,
        held-escrow_for b.requester (legs b),
        sum_by-append held l.escrows formed,
      );
      bounded = v.bounded;
      parties = rw same (
          All-append (HasParties (length l.balances)) l.escrows formed v.parties (
            new_parties b.requester (legs b) l.balances (entries d) admitted.covered
              admitted.tally.parties));
    }

-- A settlement keeps the books sound, whether it applies or reverts, after a hook that does.
pub settle-IsSound :
    (hook : Hook) (b : Bundle) (now : Ts) (l : CustodyLedger)
    → IsSound (run_hook hook now l)
    → IsSound (settle hook b now l).1
settle-IsSound hook b now l v = elim (settle-Settles hook b now l) [
  | reverts e q ↦ rw q v
  | applies receipt d admitted fits q ↦
      rw q (committed-IsSound b d now (run_hook hook now l) admitted v)
]
