-- ===== src/Chain/Custody/DebitTable.antt =====
-- crates/chain/src/custody.rs, `Debits`: the table holds each account once, and its amounts sum to
-- what was added.
use rfq_matching_settlement.Prelude.{
  ℕ, ◌+◌, ◌≡◌, ◌≢◌, ◌⊎◌, refl, inl, inr, Bool, true, false, none, some, List, [], ◌∷◌, arith,
  Option-cases, Bool-cases, ◌==◌, sum_by, All, if◌then◌else◌,
}
use mathlib.Core.List.{head?}
use rfq_matching_settlement.Core.Types.{Amount, AccountIdx}
use rfq_matching_settlement.Chain.Custody.Transaction.{Debits, add_debit, entries}

abbrev pub owed : List (AccountIdx × Amount) → ℕ
owed = sum_by (λ e. e.1)

abbrev pub Absent : AccountIdx → List (AccountIdx × Amount) → Type 0
Absent a = All (λ e. e.0 ≢ a)

-- The account has an entry.
abbrev pub Named : AccountIdx → List (AccountIdx × Amount) → Type 0
Named a [] = ⊥
Named a (e ∷ es) = (e.0 ≡ a) ⊎ Named a es

abbrev pub Distinct : List (AccountIdx × Amount) → Type 0
Distinct [] = Unit
Distinct (e ∷ es) = Absent e.0 es × Distinct es

-- The table as an association list: the account's amount grows, or a new entry goes to the end.
pub add_entry : AccountIdx → Amount → List (AccountIdx × Amount) → List (AccountIdx × Amount)
add_entry a x [] = (a, x) ∷ []
add_entry a x ((k, t) ∷ es) = if k == a then (k, t + x) ∷ es else (k, t) ∷ add_entry a x es

Absent-add_entry :
    (k a : AccountIdx) (x : Amount) (es : List (AccountIdx × Amount))
    → a ≢ k
    → Absent k es
    → Absent k (add_entry a x es)
unfolding add_entry
Absent-add_entry k a x [] n p = (n, tt)
Absent-add_entry k a x ((j, t) ∷ es) n p = elim (Bool-cases (j == a)) [
  | inl q ↦ rw q p
  | inr q ↦ rw q (p.0, Absent-add_entry k a x es n p.1)
]

pub Distinct-add_entry :
    (a : AccountIdx) (x : Amount) (es : List (AccountIdx × Amount))
    → Distinct es
    → Distinct (add_entry a x es)
unfolding add_entry
Distinct-add_entry a x [] p = (tt, tt)
Distinct-add_entry a x ((j, t) ∷ es) p = elim (Bool-cases (j == a)) [
  | inl q ↦ rw q p
  | inr q ↦ rw q (Absent-add_entry j a x es (ground arith) p.0, Distinct-add_entry a x es p.1)
]

pub Named-add_entry :
    (k a : AccountIdx) (x : Amount) (es : List (AccountIdx × Amount))
    → Named k es
    → Named k (add_entry a x es)
unfolding add_entry
Named-add_entry k a x [] n = elim n [ ]
Named-add_entry k a x ((j, t) ∷ es) n = elim (Bool-cases (j == a)) [
  | inl q ↦ rw q n
  | inr q ↦ rw q (elim n [ inl h ↦ inl h | inr h ↦ inr (Named-add_entry k a x es h) ])
]

pub Named-add_entry_self :
    (a : AccountIdx) (x : Amount) (es : List (AccountIdx × Amount)) → Named a (add_entry a x es)
unfolding add_entry
Named-add_entry_self a x [] = inl refl
Named-add_entry_self a x ((j, t) ∷ es) = elim (Bool-cases (j == a)) [
  | inl q ↦ rw q (inl (ground arith))
  | inr q ↦ rw q (inr (Named-add_entry_self a x es))
]

pub owed-add_entry :
    (a : AccountIdx) (x : Amount) (es : List (AccountIdx × Amount))
    → owed (add_entry a x es) ≡ owed es + x
unfolding add_entry
owed-add_entry a x [] = ground arith
owed-add_entry a x ((j, t) ∷ es) = ground (arith, owed-add_entry a x es)

-- What the entries hold for one account.
abbrev pub amount_of : AccountIdx → List (AccountIdx × Amount) → ℕ
amount_of a = sum_by (λ e. if e.0 == a then e.1 else 0)

pub amount_of-add_entry :
    (a k : AccountIdx) (x : Amount) (es : List (AccountIdx × Amount))
    → amount_of a (add_entry k x es) ≡ amount_of a es + (if k == a then x else 0)
unfolding add_entry
amount_of-add_entry a k x [] = ground arith
amount_of-add_entry a k x ((j, t) ∷ es) = ground (arith, amount_of-add_entry a k x es)

abbrev pub is_empty : List (AccountIdx × Amount) → Bool
is_empty [] = true
is_empty (e ∷ es) = false

-- Every free slot is after every filled one.
abbrev pub packed : Debits → Bool
packed [] = true
packed (none ∷ r) = is_empty (entries r)
packed (some e ∷ r) = packed r

-- An addition that the table accepts is the addition to the association list.
pub entries-add_debit :
    (a : AccountIdx) (x : Amount) (d : Debits) {d' : Debits}
    → packed d ≡ true
    → add_debit a x d ≡ some d'
    → entries d' ≡ add_entry a x (entries d)
unfolding add_debit add_entry
entries-add_debit a x [] p h = cc
entries-add_debit a x (none ∷ r) {d'} p h = elim (Option-cases (head? (entries r))) [
  | inl q ↦ ground arith
  | inr (f, q) ↦ ground arith
]
entries-add_debit a x (some e ∷ r) p h = elim (Option-cases (add_debit a x r)) [
  | inl q ↦ ground arith
  | inr (r', q) ↦ ground (arith, entries-add_debit a x r p q)
]

packed_of_empty : (r : Debits) → is_empty (entries r) ≡ true → packed r ≡ true
packed_of_empty [] e = refl
packed_of_empty (none ∷ r) e = e
packed_of_empty (some f ∷ r) e = cc

pub packed-add_debit :
    (a : AccountIdx) (x : Amount) (d : Debits) {d' : Debits}
    → packed d ≡ true
    → add_debit a x d ≡ some d'
    → packed d' ≡ true
unfolding add_debit
packed-add_debit a x [] p h = cc
packed-add_debit a x (none ∷ r) p h = ground (arith, packed_of_empty r p)
packed-add_debit a x (some e ∷ r) p h = elim (Option-cases (add_debit a x r)) [
  | inl q ↦ ground arith
  | inr (r', q) ↦ ground (arith, packed-add_debit a x r p q)
]
