-- ===== src/Runtime/Gateway/Interning.antt =====
-- crates/runtime/src/gateway.rs: an index names the contract that it was asked for.
use rfq_matching_settlement.Prelude.{
  ℕ, ◌⊎◌, ◌≡◌, refl, ap, inl, inr, Bool, true, Option, none, some, List, [], ◌∷◌, ◌++◌, ◌≤◌, ◌<◌,
  arith, get_elem?, length, length-append, Option-cases, Bool-cases, u32_max, zero, suc, leb, ◌∙◌,
  sym, if◌then◌else◌,
}
use rfq_matching_settlement.Prelude.Result.{ok, err}
use rfq_matching_settlement.Core.Command.{Command}
use rfq_matching_settlement.Core.Contract.{ContractIdx}
use rfq_matching_settlement.Runtime.Gateway.{
  Bytes, bytes_eq, ContractRef, ref_eq, describe, Gateway, find, contract_index, index_after,
  record_ref, intern_contract, registry_unavailable,
}

bytes_eq_sound : (xs ys : Bytes) → bytes_eq xs ys ≡ true → xs ≡ ys
bytes_eq_sound [] [] e = refl
bytes_eq_sound [] (y ∷ ys) e = absurd (ground (arith, e))
bytes_eq_sound (x ∷ xs) [] e = absurd (ground (arith, e))
bytes_eq_sound (x ∷ xs) (y ∷ ys) e = ground (arith, e, bytes_eq_sound xs ys)

bytes_eq_refl : (xs : Bytes) → bytes_eq xs xs ≡ true
bytes_eq_refl [] = refl
bytes_eq_refl (x ∷ xs) = ground (arith, bytes_eq_refl xs)

ref_eq_sound : (a b : ContractRef) → ref_eq a b ≡ true → a ≡ b
ref_eq_sound a b e = ground (
  arith,
  e,
  bytes_eq_sound a.description b.description,
  bytes_eq_sound a.resolution_source b.resolution_source,
)

ref_eq_refl : (a : ContractRef) → ref_eq a a ≡ true
ref_eq_refl a = ground (arith, bytes_eq_refl a.description, bytes_eq_refl a.resolution_source)

find_appended :
    {K V : Type 0} (eq : K → K → Bool) (key k : K) (v : V) (xs : List (K × V))
    → find eq key xs ≡ none
    → find eq key (xs ++ ((k, v) ∷ [])) ≡ (if eq k key then some v else none)
find_appended eq key k v [] e = refl
find_appended eq key k v ((k', v') ∷ xs) e = elim (Bool-cases (eq k' key)) [
  | inl y ↦ absurd (ground (arith, e, y))
  | inr n ↦ ground (arith, find_appended eq key k v xs (ground (arith, e, n)), n)
]

find_kept :
    {K V : Type 0} (eq : K → K → Bool) (key k : K) (v w : V) (xs : List (K × V))
    → find eq key xs ≡ some w
    → find eq key (xs ++ ((k, v) ∷ [])) ≡ some w
find_kept eq key k v w [] e = absurd (ground (arith, e))
find_kept eq key k v w ((k', v') ∷ xs) e = elim (Bool-cases (eq k' key)) [
  | inl y ↦ ground (arith, e, y)
  | inr n ↦ ground (arith, find_kept eq key k v w xs (ground (arith, e, n)), n)
]

get_elem?-before :
    {A : Type 0} (xs ys : List A) (i : ℕ) {a : A}
    → get_elem? xs i ≡ some a
    → get_elem? (xs ++ ys) i ≡ some a
get_elem?-before [] ys i e = absurd (ground (arith, e))
get_elem?-before (x ∷ xs) ys zero e = e
get_elem?-before (x ∷ xs) ys (suc i) e = get_elem?-before xs ys i e

get_elem?-last :
    {A : Type 0} (xs : List A) (a : A) → get_elem? (xs ++ (a ∷ [])) (length xs) ≡ some a
get_elem?-last [] a = refl
get_elem?-last (x ∷ xs) a = get_elem?-last xs a

-- What the gateway has given an index to is described under it, and nothing else is described.
pub record IsNamed (g : Gateway) : Type 0 where
  pub described :
      (reference : ContractRef) (k : ContractIdx)
      → find ref_eq reference g.contracts ≡ some k
      → describe g.registry k ≡ some reference
  pub counted : length g.registry.by_index ≡ length g.contracts

-- What `contract` does to a contract it has not seen.
abbrev learnt : ContractRef → ContractIdx → Gateway → Gateway
learnt reference k g = record g { contracts = g.contracts ++ ((reference, k) ∷ []) }

learnt-IsNamed :
    (reference : ContractRef) (g : Gateway)
    → IsNamed g
    → find ref_eq reference g.contracts ≡ none
    → IsNamed (record_ref reference (learnt reference (length g.contracts) g))
learnt-IsNamed reference g named new = record {
  described = λ other k e. known other k (Option-cases (find ref_eq other g.contracts)) e;
  counted = omega (
    arith,
    named.counted,
    length-append g.registry.by_index (reference ∷ []),
    length-append g.contracts ((reference, length g.contracts) ∷ []),
  );
}
  where
    known :
        (other : ContractRef) (k : ContractIdx)
        → (find ref_eq other g.contracts ≡ none)
          ⊎ ((i : ContractIdx) × (find ref_eq other g.contracts ≡ some i))
        → find ref_eq other (g.contracts ++ ((reference, length g.contracts) ∷ [])) ≡ some k
        → get_elem? (g.registry.by_index ++ (reference ∷ [])) k ≡ some other
    known other k (inl n) e =
        let found =
          sym (find_appended ref_eq other reference (length g.contracts) g.contracts n) ∙ e in
        elim (Bool-cases (ref_eq reference other)) [
          | inl y ↦
              let same : reference ≡ other = ref_eq_sound reference other y in
              let at : k ≡ length g.registry.by_index = ground (arith, found, y, named.counted) in
              rw (at, ← same) (get_elem?-last g.registry.by_index reference)
          | inr n ↦ absurd (ground (arith, found, n))
        ]
    known other k (inr (i, f)) e =
        let same : some i ≡ some k =
          sym (find_kept ref_eq other reference (length g.contracts) i g.contracts f) ∙ e in
        get_elem?-before g.registry.by_index (reference ∷ []) k (named.described other k (f ∙ same))

index_after_small : (n m : ℕ) → index_after n < m → m ≤ u32_max → index_after n ≡ n
index_after_small n m h small = ground (arith, h, small)

interned :
    (o : Option ContractIdx) (reference : ContractRef) (g g' : Gateway) (k : ContractIdx)
    (c : Option Command)
    → find ref_eq reference g.contracts ≡ o
    → IsNamed g
    → g.max_contracts ≤ u32_max
    → intern_contract o reference g ≡ (ok (k, c), g')
    → IsNamed g' × (find ref_eq reference g'.contracts ≡ some k)
interned (some i) reference g g' k c f named small e =
    let same : g ≡ g' = ap (λ p. p.1) e in
    let index : i ≡ k = ground (arith, e) in rw (← same, ← index) (named, f)
interned none reference g g' k c f named small e =
    elim (Bool-cases (leb g.max_contracts (index_after (length g.contracts)))) [
      | inl full ↦ absurd (ground (arith, e, full))
      | inr room ↦ elim (Bool-cases g.registry.poisoned) [
        | inl bad ↦ absurd (ground (arith, e, room, bad))
        | inr fine ↦
            let next : index_after (length g.contracts) ≡ length g.contracts =
              index_after_small (length g.contracts) g.max_contracts (ground (arith, room)) small in
            let made : (length g.contracts ≡ k)
                × (record_ref reference (learnt reference (length g.contracts) g) ≡ g') =
              ground (arith, e, room, fine, next) in
            rw (← made.1, ← made.0)
              (
                learnt-IsNamed reference g named f,
                find_appended ref_eq reference reference (length g.contracts) g.contracts f
                    ∙ ground (arith, ref_eq_refl reference),
              )
      ]
    ]

-- Where the gateway describes under each index the contract that it has given the index to, and its table is
-- within a u32, a contract asked for with success gets an index that describes it, the gateway stays
-- as it was described, and the same contract asked for again gets the same index, with no command and
-- no change.
pub contract_index-describe :
    (reference : ContractRef) (g g' : Gateway) (k : ContractIdx) (c : Option Command)
    → IsNamed g
    → g.max_contracts ≤ u32_max
    → contract_index reference g ≡ (ok (k, c), g')
    → IsNamed g'
      × (describe g'.registry k ≡ some reference)
      × (contract_index reference g' ≡ (ok (k, none), g'))
unfolding contract_index
contract_index-describe reference g g' k c named small e =
    let (kept, found) =
      interned (find ref_eq reference g.contracts) reference g g' k c refl named small e in
    (kept, kept.described reference k found, ap (λ o. intern_contract o reference g') found)

-- A contract that is new when the registry's lock is poisoned, with room in the table, is refused with
-- RegistryUnavailable and keeps the index it was given: the same contract asked for again gets that
-- index, with no command that registers it.
pub contract_unannounced :
    (reference : ContractRef) (g : Gateway)
    → find ref_eq reference g.contracts ≡ none
    → index_after (length g.contracts) < g.max_contracts
    → g.registry.poisoned ≡ true
    → (g' : Gateway) × (contract_index reference g ≡ (err registry_unavailable, g'))
      × (contract_index reference g' ≡ (ok (index_after (length g.contracts), none), g'))
unfolding contract_index
contract_unannounced reference g new room bad =
    let next = index_after (length g.contracts) in
    let found : find ref_eq reference (learnt reference next g).contracts ≡ some next =
      find_appended ref_eq reference reference next g.contracts new
      ∙ ground (arith, ref_eq_refl reference) in
    (
      learnt reference next g,
      ground (arith, new, room, bad),
      ap (λ o. intern_contract o reference (learnt reference next g)) found,
    )
