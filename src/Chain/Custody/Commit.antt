-- ===== src/Chain/Custody/Commit.antt =====
-- crates/chain/src/custody.rs, the commit half of `Custody::settle`: which fields each loop writes.
use rfq_matching_settlement.Prelude.{
  ℕ, ◌+◌, ◌≡◌, refl, sym, ap, ◌∙◌, inl, inr, Option, none, some, List, [], ◌∷◌, ◌++◌, map, arith,
  Option-cases, get_elem?, set, length, sum_by, sum_by-set, length-set, All, get_elem?-set_ne,
  replicate, saturating_sub,
}
use mathlib.Core.List.{append-nil, append_assoc}
use rfq_matching_settlement.Core.Types.{Amount, AccountIdx, EscrowId}
use rfq_matching_settlement.Core.Config.{max_legs_bound}
use rfq_matching_settlement.Core.Settlement.{settled}
use rfq_matching_settlement.Chain.Bundle.{Bundle, BundleLeg, legs}
use rfq_matching_settlement.Chain.Escrow.{Escrow}
use rfq_matching_settlement.Chain.Log.{ChainLog}
use rfq_matching_settlement.Chain.Custody.{CustodyLedger, Balance, log_balance, insert_nonce}
use rfq_matching_settlement.Chain.Custody.Transaction.{Debits, entries}
use rfq_matching_settlement.Chain.Custody.Inclusion.{
  debit_found, debit_all, log_all, escrow_for, form_escrows, next_id, commit_bundle,
}
use rfq_matching_settlement.Chain.Custody.DebitTable.{owed, Absent, Distinct}
use rfq_matching_settlement.Chain.Custody.Tally.{IsCovered, leg_total}
use rfq_matching_settlement.Chain.Custody.Conservation.{balance_of, held}

unfoldable pub debit_balance : Option Balance → List Balance → AccountIdx → Amount → List Balance
debit_balance none bs a x = bs
debit_balance (some b) bs a x = set bs a (record b { balance = saturating_sub b.balance x })

-- The debits as a function of the balances alone.
unfoldable pub debit_balances : List (AccountIdx × Amount) → List Balance → List Balance
unfolding debit_balance
debit_balances [] bs = bs
debit_balances ((a, x) ∷ es) bs = debit_balances es (debit_balance (get_elem? bs a) bs a x)

-- Debiting writes the balances and nothing else.
pub debit_all_frame :
    (es : List (AccountIdx × Amount)) (l : CustodyLedger)
    → debit_all es l ≡ record l { balances = debit_balances es l.balances }
unfolding debit_all debit_balances
debit_all_frame [] l = refl
debit_all_frame ((a, x) ∷ es) l = elim (Option-cases (get_elem? l.balances a)) [
  | inl e ↦ rw (e, debit_balance, debit_found) (debit_all_frame es l)
  | inr (b, e) ↦
      rw (e, debit_balance, debit_found)
        (debit_all_frame es (record l {
          balances = set l.balances a (record b { balance = saturating_sub b.balance x });
        }))
]

pub log_after : List (AccountIdx × Amount) → CustodyLedger → ChainLog
log_after es l = (log_all es l).log

-- Logging writes the log and nothing else.
pub log_all_frame :
    (es : List (AccountIdx × Amount)) (l : CustodyLedger)
    → log_all es l ≡ record l { log = log_after es l }
unfolding log_all log_after log_balance
log_all_frame [] l = refl
log_all_frame ((a, x) ∷ es) l = log_all_frame es (log_balance a l)

pub form_escrows_frame :
    (r : AccountIdx) (i : ℕ) (ls : List BundleLeg) (ids : List EscrowId) (l : CustodyLedger)
    → (form_escrows r i ls ids l).1 ≡ record l { escrows = l.escrows ++ map (escrow_for r) ls }
unfolding form_escrows
form_escrows_frame r i [] ids l = rw append-nil refl
form_escrows_frame r i (leg ∷ ls) ids l =
    form_escrows_frame r (i + 1) ls (set ids i (next_id l))
      (record l { escrows = l.escrows ++ escrow_for r leg ∷ [] })
    ∙ ap (λ (es : List Escrow). record l { escrows = es })
        (append_assoc l.escrows (escrow_for r leg ∷ []) (map (escrow_for r) ls))

pub IsCovered-set :
    (a : AccountIdx) (v : Balance) (bs : List Balance) (es : List (AccountIdx × Amount))
    → Absent a es
    → All (IsCovered bs) es
    → All (IsCovered (set bs a v)) es
IsCovered-set a v bs [] n c = tt
IsCovered-set a v bs (e ∷ es) n c =
    let (b, found, fits) = c.0 in
    (
      (b, get_elem?-set_ne bs a e.0 v (λ q. n.0 (sym q)) ∙ found, fits),
      IsCovered-set a v bs es n.1 c.1,
    )

-- Distinct accounts that each cover their debit lose exactly what is owed, together.
pub sum-debit_balances :
    (es : List (AccountIdx × Amount)) (bs : List Balance)
    → Distinct es
    → All (IsCovered bs) es
    → sum_by balance_of (debit_balances es bs) + owed es ≡ sum_by balance_of bs
unfolding debit_balances
sum-debit_balances [] bs v c = omega arith
sum-debit_balances ((a, x) ∷ es) bs v c =
    let (b, found, fits) = c.0 in
    let b' : Balance = record b { balance = saturating_sub b.balance x } in
    rw (found, debit_balance)
      (omega (
        arith,
        sum-debit_balances es (set bs a b') v.1 (IsCovered-set a b' bs es v.0 c.1),
        sum_by-set balance_of bs a b' found,
        fits,
      ))

pub length-debit_balances :
    (es : List (AccountIdx × Amount)) (bs : List Balance)
    → length (debit_balances es bs) ≡ length bs
unfolding debit_balances
length-debit_balances [] bs = refl
length-debit_balances ((a, x) ∷ es) bs = elim (Option-cases (get_elem? bs a)) [
  | inl e ↦ rw (e, debit_balance) (length-debit_balances es bs)
  | inr (b, e) ↦
      let b' : Balance = record b { balance = saturating_sub b.balance x } in
      rw (e, debit_balance) (length-debit_balances es (set bs a b') ∙ length-set bs a b')
]

-- The new escrows hold what their legs put up.
pub held-escrow_for :
    (r : AccountIdx) (ls : List BundleLeg)
    → sum_by held (map (escrow_for r) ls) ≡ sum_by leg_total ls
held-escrow_for r [] = refl
held-escrow_for r (leg ∷ ls) = omega (arith, held-escrow_for r ls)

-- The ledger that a commit leaves: debited balances, one escrow more for each leg, the nonce spent
-- and the debits logged; all else is as it was.
unfoldable pub committed : Bundle → Debits → CustodyLedger → CustodyLedger
committed bundle debits l = record l {
  balances = debit_balances (entries debits) l.balances;
  escrows = l.escrows ++ map (escrow_for bundle.requester) (legs bundle);
  resolved = insert_nonce bundle.nonce settled l.resolved;
  log =
      log_after (entries debits)
        (record l { balances = debit_balances (entries debits) l.balances });
}

pub commit_bundle_frame :
    (b : Bundle) (d : Debits) (l : CustodyLedger) → (commit_bundle b d l).1 ≡ committed b d l
unfolding commit_bundle committed
commit_bundle_frame b d l =
    let es = entries d in
    let debited : CustodyLedger = record l { balances = debit_balances es l.balances } in
    ap spend (
      form_escrows_frame b.requester 0 (legs b) (replicate max_legs_bound 0)
        (log_all es (debit_all es l)))
    ∙ ap
        (λ (m : CustodyLedger).
          spend (record m { escrows = m.escrows ++ map (escrow_for b.requester) (legs b) }))
        (ap (log_all es) (debit_all_frame es l) ∙ log_all_frame es debited)
  where
    spend : CustodyLedger → CustodyLedger
    spend m = record m { resolved = insert_nonce b.nonce settled m.resolved }
