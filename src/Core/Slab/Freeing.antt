-- ===== src/Core/Slab/Freeing.antt =====
-- crates/core/src/slab.rs: what a removal does, and the well-formedness that it keeps.
use rfq_matching_settlement.Prelude.{
  ℕ, ◌-◌, ◌<◌, ◌≡◌, inl, inr, Option, none, some, List, ◌∷◌, arith, length, get_elem?, get_elem?-lt,
  get_elem?-set_self, length-set, set, sum_by-set, ltb, u32_max, ◌==◌, if◌then◌else◌, Option-cases,
  Bool-cases,
}
use rfq_matching_settlement.Core.Slab.{
  nil, Handle, occupied, Slot, Slab, get, remove, value_of, vacated,
}
use rfq_matching_settlement.Core.Slab.Free.{IsWell, weight, Chained-set, Misses-occupied}

module _ {A : Type 0} where
  abbrev pub relisted : Option A → Handle → List ℕ → List ℕ
  relisted none h fs = fs
  relisted (some v) h fs = if ltb h.generation u32_max then h.index ∷ fs else fs

  -- The free list after a removal through a handle: the slot comes first, unless its generations
  -- are used up.
  abbrev pub given_back : Slab A → Handle → List ℕ → List ℕ
  given_back s h fs = relisted (get s h) h fs

  -- What a removal does: nothing through a stale handle, and otherwise it empties the slot.
  pub data Removes (h : Handle) (s : Slab A) (r : Option A × Slab A) : Type 0 where
    stale : get s h ≡ none → r ≡ (none, s) → Removes h s r
    empties :
        (v : A) (slot : Slot A)
        → get s h ≡ some v
        → get_elem? s.slots h.index ≡ some slot
        → slot.generation ≡ h.generation
        → slot.state ≡ occupied v
        → r ≡ (
          some v,
          record {
            slots = set s.slots h.index (vacated slot s.free_head);
            free_head = if ltb slot.generation u32_max then h.index else s.free_head;
            live = s.live - 1;
          },
        )
        → Removes h s r

  pub remove-Removes : (h : Handle) (s : Slab A) → Removes h s (remove h s)
  unfolding remove get
  remove-Removes h s = elim (Option-cases (get_elem? s.slots h.index)) [
    | inl e ↦ stale (ground (arith, e)) (ground (arith, e))
    | inr (slot, e) ↦ elim (Option-cases (value_of slot.state)) [
      | inl none_there ↦ stale (ground (arith, e)) (ground (arith, e))
      | inr (v, there) ↦ elim (Bool-cases (slot.generation == h.generation)) [
        | inl same ↦
            empties v slot (ground (arith, e)) e (ground arith) (ground arith) (ground (arith, e))
        | inr other ↦ stale (ground (arith, e)) (ground (arith, e))
      ]
    ]
  ]

  emptied-IsWell :
      (h : Handle) (s : Slab A) (fs : List ℕ) (v : A) (slot : Slot A)
      → IsWell s fs
      → get_elem? s.slots h.index ≡ some slot
      → slot.generation ≡ h.generation
      → slot.state ≡ occupied v
      → IsWell
          (record {
            slots = set s.slots h.index (vacated slot s.free_head);
            free_head = if ltb slot.generation u32_max then h.index else s.free_head;
            live = s.live - 1;
          })
          (if ltb h.generation u32_max then h.index ∷ fs else fs)
  emptied-IsWell h s fs v slot w at same there =
      let empty = vacated slot s.free_head in
      let in_range = get_elem?-lt s.slots h.index at in
      let missed = Misses-occupied s.slots h.index fs (ground (arith, at)) w.chained in
      let rest = Chained-set s.slots h.index empty fs missed w.chained in
      let moved = sum_by-set weight s.slots h.index empty at in
      let kept : length (set s.slots h.index empty) < nil =
        rw (length-set s.slots h.index empty) w.small in
      let reads = get_elem?-set_self s.slots h.index empty in_range in
      elim (Bool-cases (ltb h.generation u32_max)) [
        | inl more ↦ rw more (record {
          head = ground (arith, more);
          chained = (ground (arith, reads, more, w.head), rest);
          distinct = (missed, w.distinct);
          counted = ground (arith, w.counted, moved, there);
          small = kept;
        })
        | inr last ↦ rw last (record {
          head = ground (arith, last, w.head);
          chained = rest;
          distinct = w.distinct;
          counted = ground (arith, w.counted, moved, there);
          small = kept;
        })
      ]

  -- A removal through any handle keeps a slab well formed: the free list gains the slot in front if
  -- the handle resolved and the slot has a generation left, and is otherwise what it was.
  pub remove-IsWell :
      (h : Handle) (s : Slab A) (fs : List ℕ)
      → IsWell s fs
      → IsWell (remove h s).1 (given_back s h fs)
  remove-IsWell h s fs w = elim (remove-Removes h s) [
    | stale gone q ↦ rw (q, gone) w
    | empties v slot reads at same there q ↦
        rw (q, reads) (emptied-IsWell h s fs v slot w at same there)
  ]
