-- ===== src/Core/Slab/Fresh.antt =====
-- crates/core/src/slab.rs: a new slab is well formed.
use rfq_matching_settlement.Prelude.{
  ℕ, zero, suc, ◌+◌, ◌<◌, ◌≡◌, refl, ap, some, List, [], ◌∷◌, arith, length, get_elem?, sum_by, ltb,
  ◌==◌, if◌then◌else◌,
}
use rfq_matching_settlement.Core.Slab.{nil, Slab, Slot, fresh_slots, with_capacity}
use rfq_matching_settlement.Core.Slab.Free.{
  IsWell, Chained, Misses, Distinct, first, next_free, weight,
}

-- The indices `i ..`, `n` of them.
abbrev pub range : ℕ → ℕ → List ℕ
range zero i = []
range (suc n) i = i ∷ range n (i + 1)

Misses-range : (j n i : ℕ) → j < i → Misses j (range n i)
Misses-range j zero i h = tt
Misses-range j (suc n) i h = ((λ e. omega arith), Misses-range j n (i + 1) (omega arith))

Distinct-range : (n i : ℕ) → Distinct (range n i)
Distinct-range zero i = tt
Distinct-range (suc n) i = (Misses-range i n (i + 1) (omega arith), Distinct-range n (i + 1))

first-range : (c : ℕ) → (if c == 0 then nil else 0) ≡ first (range c 0)
first-range zero = refl
first-range (suc c) = ground arith

module _ (A : Type 0) where
  length-fresh_slots : (n i c : ℕ) → length (fresh_slots {A = A} n i c) ≡ n
  unfolding fresh_slots
  length-fresh_slots zero i c = refl
  length-fresh_slots (suc n) i c = ap suc (length-fresh_slots n (i + 1) c)

  weight-fresh_slots : (n i c : ℕ) → sum_by weight (fresh_slots {A = A} n i c) ≡ 0
  unfolding fresh_slots
  weight-fresh_slots zero i c = refl
  weight-fresh_slots (suc n) i c = omega (arith, weight-fresh_slots n (i + 1) c)

  -- What each new slot links to.
  next_free-fresh_slots :
      (n i c k : ℕ)
      → k < n
      → next_free (get_elem? (fresh_slots {A = A} n i c) k)
        ≡ some (if ltb (i + k + 1) c then i + k + 1 else nil)
  unfolding fresh_slots
  next_free-fresh_slots zero i c k h = elim h [ ]
  next_free-fresh_slots (suc n) i c zero h = ground arith
  next_free-fresh_slots (suc n) i c (suc k) h = ground (arith, next_free-fresh_slots n (i + 1) c k)

module _ {A : Type 0} where
  Chained-range :
      (slots : List (Slot A)) (n i c : ℕ)
      → i + n ≡ c
      → ((k : ℕ)
          → k < c
          → next_free (get_elem? slots k) ≡ some (if ltb (k + 1) c then k + 1 else nil))
      → Chained slots (range n i)
  Chained-range slots zero i c e h = tt
  Chained-range slots (suc zero) i c e h = (ground (arith, h i), tt)
  Chained-range slots (suc (suc n)) i c e h =
      (ground (arith, h i), Chained-range slots (suc n) (i + 1) c (omega arith) h)

  -- A slab can be made with any capacity but the nil link and those past it, and it is well formed:
  -- every slot is free, in index order.
  pub with_capacity-IsWell :
      (c : ℕ) → c < nil → (s : Slab A) × (with_capacity c ≡ some s) × IsWell s (range c 0)
  unfolding with_capacity
  with_capacity-IsWell c h = (
    record { slots = fresh_slots c 0 c; free_head = if c == 0 then nil else 0; live = 0 },
    ground arith,
    record {
      head = first-range c;
      chained =
          Chained-range (fresh_slots c 0 c) c 0 c (omega arith)
            (λ k. λ lt. ground (arith, next_free-fresh_slots A c 0 c k lt));
      distinct = Distinct-range c 0;
      counted = ground (arith, weight-fresh_slots A c 0 c);
      small = omega (arith, length-fresh_slots A c 0 c);
    },
  )
