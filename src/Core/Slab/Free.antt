-- ===== src/Core/Slab/Free.antt =====
-- crates/core/src/slab.rs: the free list, and the well-formedness that every operation keeps.
use rfq_matching_settlement.Prelude.{
  ℕ, ◌+◌, ◌≤◌, ◌<◌, ◌≡◌, ◌≢◌, refl, ap, inl, inr, Option, none, some, List, [], ◌∷◌, arith, length,
  get_elem?, get_elem?-lt, get_elem?-set_ne, length-set, set, sum_by, sum_by-set, All, Option-cases,
}
use rfq_matching_settlement.Prelude.Result.{Result, ok, err}
use rfq_matching_settlement.Core.Slab.{
  nil, Handle, SlabFull, slab_full, SlotState, vacant, occupied, Slot, Slab, insert,
}

-- The link that starts a list of free slots.
abbrev pub first : List ℕ → ℕ
first [] = nil
first (i ∷ fs) = i

module _ {A : Type 0} where
  abbrev next_of : SlotState A → Option ℕ
  next_of (vacant next) = some next
  next_of (occupied v) = none

  abbrev pub next_free : Option (Slot A) → Option ℕ
  next_free none = none
  next_free (some slot) = next_of slot.state

  -- The slots named are vacant, each linked to the one after it, and the last to nothing.
  abbrev pub Chained : List (Slot A) → List ℕ → Type 0
  Chained slots [] = Unit {0}
  Chained slots (i ∷ fs) = (next_free (get_elem? slots i) ≡ some (first fs)) × Chained slots fs

  abbrev pub weight : Slot A → ℕ
  weight slot = elim slot.state [ vacant next ↦ 0 | occupied v ↦ 1 ]

-- The free list after an insertion.
abbrev pub taken : List ℕ → List ℕ
taken [] = []
taken (i ∷ fs) = fs

abbrev pub Misses : ℕ → List ℕ → Type 0
Misses i = All (λ j. i ≢ j)

abbrev pub Distinct : List ℕ → Type 0
Distinct [] = Unit
Distinct (i ∷ fs) = Misses i fs × Distinct fs

-- The free list of the slab is `fs`: distinct vacant slots. The live count is that of the occupied
-- slots, and no slot has the nil link for its index.
pub record IsWell {A : Type 0} (s : Slab A) (fs : List ℕ) : Type 0 where
  pub head : s.free_head ≡ first fs
  pub chained : Chained s.slots fs
  pub distinct : Distinct fs
  pub counted : s.live ≡ sum_by weight s.slots
  pub small : length s.slots < nil

module _ {A : Type 0} where
  -- A write to a slot that the list misses leaves the list as it is.
  pub Chained-set :
      (slots : List (Slot A)) (i : ℕ) (slot : Slot A) (fs : List ℕ)
      → Misses i fs
      → Chained slots fs
      → Chained (set slots i slot) fs
  Chained-set slots i slot [] m c = tt
  Chained-set slots i slot (j ∷ fs) m c =
      (rw (get_elem?-set_ne slots i j slot m.0) c.0, Chained-set slots i slot fs m.1 c.1)

  -- An occupied slot is on no free list.
  pub Misses-occupied :
      (slots : List (Slot A)) (i : ℕ) (fs : List ℕ)
      → next_free (get_elem? slots i) ≡ none
      → Chained slots fs
      → Misses i fs
  Misses-occupied slots i [] h c = tt
  Misses-occupied slots i (j ∷ fs) h c =
      ((λ e. ground (arith, ap (get_elem? slots) e, c.0)), Misses-occupied slots i fs h c.1)

  weight-le-one : (slot : Slot A) → weight slot ≤ 1
  weight-le-one slot = ground arith

  count-le-length : (slots : List (Slot A)) → sum_by weight slots ≤ length slots
  count-le-length [] = omega arith
  count-le-length (slot ∷ slots) = omega (arith, count-le-length slots, weight-le-one slot)

  -- What an insertion does to a well-formed slab: it refuses and changes nothing if no slot is
  -- free, and otherwise fills the first free slot.
  pub data Inserts (v : A) (s : Slab A) (fs : List ℕ) (r : Result SlabFull Handle × Slab A)
      : Type 0 where
    full : fs ≡ [] → r ≡ (err slab_full, s) → Inserts v s fs r
    fills :
        (i : ℕ) (rest : List ℕ) (slot : Slot A)
        → fs ≡ i ∷ rest
        → get_elem? s.slots i ≡ some slot
        → slot.state ≡ vacant (first rest)
        → r ≡ (
          ok (record { index = i; generation = slot.generation }),
          record {
            slots = set s.slots i (record slot { state = occupied v });
            free_head = first rest;
            live = s.live + 1;
          },
        )
        → Inserts v s fs r

  nil_unused : (slots : List (Slot A)) → length slots < nil → get_elem? slots nil ≡ none
  nil_unused slots small = elim (Option-cases (get_elem? slots nil)) [
    | inl e ↦ e
    | inr (x, e) ↦ absurd (omega (arith, get_elem?-lt slots nil e))
  ]

  pub insert-Inserts :
      (v : A) (s : Slab A) (fs : List ℕ) → IsWell s fs → Inserts v s fs (insert v s)
  unfolding insert
  insert-Inserts v s [] w =
      full refl (ground (arith, w.head, nil_unused s.slots w.small, ap (get_elem? s.slots) w.head))
  insert-Inserts v s (i ∷ rest) w = elim (Option-cases (get_elem? s.slots i)) [
    | inl e ↦ ground (arith, w.chained.0, e)
    | inr (slot, e) ↦
        let at : slot.state ≡ vacant (first rest) = ground (arith, w.chained.0, e) in
        fills i rest slot refl e at (
          ground (
            arith,
            e,
            at,
            w.head,
            ap (get_elem? s.slots) w.head,
            w.counted,
            w.small,
            count-le-length s.slots,
          ))
  ]

  -- An insertion keeps a well-formed slab so: the free list loses its first slot, if it has one.
  pub insert-IsWell :
      (v : A) (s : Slab A) (fs : List ℕ) → IsWell s fs → IsWell (insert v s).1 (taken fs)
  insert-IsWell v s fs w = elim (insert-Inserts v s fs w) [
    | full none_free q ↦ rw q (rw none_free (rw none_free at w))
    | fills i rest slot split at vacant_at q ↦
        rw (q, split) (filled i rest slot at vacant_at (rw split at w))
  ]
    where
      filled :
          (i : ℕ) (rest : List ℕ) (slot : Slot A)
          → get_elem? s.slots i ≡ some slot
          → slot.state ≡ vacant (first rest)
          → IsWell s (i ∷ rest)
          → IsWell
              (record {
                slots = set s.slots i (record slot { state = occupied v });
                free_head = first rest;
                live = s.live + 1;
              })
              rest
      filled i rest slot at vacant_at u =
          let full_slot : Slot A = record slot { state = occupied v } in
          record {
            head = refl;
            chained = Chained-set s.slots i full_slot rest u.distinct.0 u.chained.1;
            distinct = u.distinct.1;
            counted =
                ground (arith, u.counted, vacant_at, sum_by-set weight s.slots i full_slot at);
            small = rw (length-set s.slots i full_slot) u.small;
          }
