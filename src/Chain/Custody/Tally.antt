-- ===== src/Chain/Custody/Tally.antt =====
-- crates/chain/src/custody.rs, the debits of `Custody::validate`: what the legs add to the table,
-- and what the check of the table finds.
use rfq_matching_settlement.Prelude.{
  ℕ, ◌+◌, ◌≤◌, ◌<◌, ◌≡◌, ap, inl, inr, true, Option, none, some, List, [], ◌∷◌, arith, Option-cases,
  get_elem?, get_elem?-lt, sum_by, All, length, ◌==◌, if◌then◌else◌,
}
use rfq_matching_settlement.Prelude.Result.{ok, Result-cases}
use rfq_matching_settlement.Core.Types.{Amount, Ts, AccountIdx}
use rfq_matching_settlement.Chain.Bundle.{BundleLeg, requester_contribution, maker_contribution}
use rfq_matching_settlement.Chain.Custody.{CustodyLedger, Balance}
use rfq_matching_settlement.Chain.Custody.Transaction.{
  Debits, add_debit, entries, debit_leg, debit_legs, check_entries,
}
use rfq_matching_settlement.Chain.Custody.DebitTable.{
  owed, Named, Distinct, packed, entries-add_debit, packed-add_debit, owed-add_entry, amount_of,
  amount_of-add_entry, Distinct-add_entry, Named-add_entry, Named-add_entry_self,
}

abbrev pub or_zero : Option Amount → Amount
or_zero none = 0
or_zero (some a) = a

-- What the two parties of a leg put up together.
abbrev pub leg_total : BundleLeg → ℕ
leg_total leg = or_zero (requester_contribution leg) + or_zero (maker_contribution leg)

-- What a leg costs one account: the maker's part, the requester's part, or both.
abbrev pub charge : AccountIdx → AccountIdx → BundleLeg → ℕ
charge requester a leg =
    (if leg.maker == a then or_zero (maker_contribution leg) else 0)
    + (if requester == a then or_zero (requester_contribution leg) else 0)

-- What one leg, or all legs, make of the table.
pub record LegTally (requester : AccountIdx) (now : Ts) (leg : BundleLeg) (d d' : Debits)
    : Type 0 where
  pub live : now < leg.quote_expiry
  pub keeps_packed : packed d' ≡ true
  pub total : owed (entries d') ≡ owed (entries d) + leg_total leg
  pub charged :
      (a : AccountIdx) → amount_of a (entries d') ≡ amount_of a (entries d) + charge requester a leg
  pub distinct : Distinct (entries d) → Distinct (entries d')
  pub names : (k : AccountIdx) → Named k (entries d) → Named k (entries d')
  pub maker_named : Named leg.maker (entries d')
  pub requester_named : Named requester (entries d')

-- What an accepted leg went through.
debit_leg_ok :
    (requester : AccountIdx) (now : Ts) (i : ℕ) (leg : BundleLeg) (d : Debits) {d' : Debits}
    → debit_leg requester now i leg d ≡ ok d'
    → (m : Amount) × (own : Amount) × (d1 : Debits) × (now < leg.quote_expiry)
      × (maker_contribution leg ≡ some m)
      × (requester_contribution leg ≡ some own)
      × (add_debit leg.maker m d ≡ some d1)
      × (add_debit requester own d1 ≡ some d')
unfolding debit_leg
debit_leg_ok requester now i leg d h = ground arith

-- A leg that is accepted adds both contributions to the table, under its two parties.
debit_leg-LegTally :
    (requester : AccountIdx) (now : Ts) (i : ℕ) (leg : BundleLeg) (d : Debits) {d' : Debits}
    → packed d ≡ true
    → debit_leg requester now i leg d ≡ ok d'
    → LegTally requester now leg d d'
debit_leg-LegTally requester now i leg d {d'} p h =
    let (m, own, d1, live, em, eo, a1, a2) = debit_leg_ok requester now i leg d h in
    let p1 = packed-add_debit leg.maker m d p a1 in
    let e1 = entries-add_debit leg.maker m d p a1 in
    let e2 = entries-add_debit requester own d1 p1 a2 in
    record {
      live = live;
      keeps_packed = packed-add_debit requester own d1 p1 a2;
      total = ground (
        arith,
        owed-add_entry leg.maker m (entries d),
        owed-add_entry requester own (entries d1),
        ap owed e1,
        ap owed e2,
      );
      charged = λ a. ground (
        arith,
        em,
        eo,
        amount_of-add_entry a leg.maker m (entries d),
        amount_of-add_entry a requester own (entries d1),
        ap (amount_of a) e1,
        ap (amount_of a) e2,
      );
      distinct = λ v. rw e2 (
          Distinct-add_entry requester own (entries d1)
            (rw e1 (Distinct-add_entry leg.maker m (entries d) v)));
      names = λ k n. rw e2 (
          Named-add_entry k requester own (entries d1)
            (rw e1 (Named-add_entry k leg.maker m (entries d) n)));
      maker_named = rw e2 (
          Named-add_entry leg.maker requester own (entries d1)
            (rw e1 (Named-add_entry_self leg.maker m (entries d))));
      requester_named = rw e2 (Named-add_entry_self requester own (entries d1));
    }

pub record Tally (requester : AccountIdx) (now : Ts) (legs : List BundleLeg) (d d' : Debits)
    : Type 0 where
  pub live : All (λ leg. now < leg.quote_expiry) legs
  pub keeps_packed : packed d' ≡ true
  pub total : owed (entries d') ≡ owed (entries d) + sum_by leg_total legs
  pub charged :
      (a : AccountIdx)
      → amount_of a (entries d') ≡ amount_of a (entries d) + sum_by (charge requester a) legs
  pub distinct : Distinct (entries d) → Distinct (entries d')
  pub names : (k : AccountIdx) → Named k (entries d) → Named k (entries d')
  pub parties : All (λ leg. Named requester (entries d') × Named leg.maker (entries d')) legs

-- Legs that are all accepted add their contributions to the table, each under its two parties.
pub debit_legs-Tally :
    (requester : AccountIdx) (now : Ts) (i : ℕ) (legs : List BundleLeg) (d : Debits) {d' : Debits}
    → packed d ≡ true
    → debit_legs requester now i legs d ≡ ok d'
    → Tally requester now legs d d'
unfolding debit_legs
debit_legs-Tally requester now i [] d {d'} p h =
    let same : d ≡ d' = cc in
    rw (← same) (record {
      live = tt;
      keeps_packed = p;
      total = omega arith;
      charged = λ a. omega arith;
      distinct = λ v. v;
      names = λ k n. n;
      parties = tt;
    })
debit_legs-Tally requester now i (leg ∷ legs) d {d'} p h =
    elim (Result-cases (debit_leg requester now i leg d)) [
      | inr (e, q) ↦ ground arith
      | inl (d1, q) ↦
          let first = debit_leg-LegTally requester now i leg d p q in
          let rest =
            debit_legs-Tally requester now (i + 1) legs d1 {d' = d'} first.keeps_packed
              (ground arith) in
          record {
            live = (first.live, rest.live);
            keeps_packed = rest.keeps_packed;
            total = omega (arith, first.total, rest.total);
            charged = λ a. omega (arith, first.charged a, rest.charged a);
            distinct = λ v. rest.distinct (first.distinct v);
            names = λ k n. rest.names k (first.names k n);
            parties = (
              (rest.names requester first.requester_named, rest.names leg.maker first.maker_named),
              rest.parties,
            );
          }
    ]

-- The account has a balance that covers the amount.
abbrev pub IsCovered : List Balance → AccountIdx × Amount → Type 0
IsCovered bs e = (b : Balance) × (get_elem? bs e.0 ≡ some b) × (e.1 ≤ b.balance)

-- A table that passes the check is covered, entry by entry, by balances and not by availability.
pub check_entries-IsCovered :
    (l : CustodyLedger) (es : List (AccountIdx × Amount))
    → check_entries l es ≡ ok tt
    → All (IsCovered l.balances) es
unfolding check_entries
check_entries-IsCovered l [] h = tt
check_entries-IsCovered l ((a, x) ∷ es) h = elim (Option-cases (get_elem? l.balances a)) [
  | inl e ↦ ground arith
  | inr (b, e) ↦ ((b, e, ground arith), check_entries-IsCovered l es (ground arith))
]

-- An account that a covered table names is in range.
pub Named-lt :
    (a : AccountIdx) (bs : List Balance) (es : List (AccountIdx × Amount))
    → All (IsCovered bs) es
    → Named a es
    → a < length bs
Named-lt a bs [] c n = elim n [ ]
Named-lt a bs (e ∷ es) c (inl q) = rw (← q) (get_elem?-lt bs e.0 c.0.1)
Named-lt a bs (e ∷ es) c (inr n) = Named-lt a bs es c.1 n
