-- ===== src/Core/Slab/Stale.antt =====
-- crates/core/src/slab.rs: a handle that was removed never resolves again.
use rfq_matching_settlement.Prelude.{
  ℕ, ◌-◌, ◌≡◌, refl, sym, inl, inr, none, some, List, [], ◌∷◌, arith, get_elem?-lt,
  get_elem?-set_self, set, ltb, u32_max, if◌then◌else◌, Bool-cases, length-set, sum_by-set,
}
use rfq_matching_settlement.Core.Slab.{Handle, occupied, Slot, Slab, get, modify, remove, vacated}
use rfq_matching_settlement.Core.Slab.Free.{
  IsWell, Misses-occupied, Chained-set, weight, insert-IsWell, taken,
}
use rfq_matching_settlement.Core.Slab.Freeing.{
  stale, empties, remove-Removes, remove-IsWell, given_back,
}
use rfq_matching_settlement.Core.Slab.Past.{
  SlabStep, inserts, writes, removes, step, run, Past, reissued, retired, Past-get, insert-Past,
  misses, hits, modify-Writes, set-Past, modify-Past,
}

module _ {A : Type 0} where
  remove-Past :
      (g h : Handle) (s : Slab A) (fs : List ℕ)
      → Past h s fs
      → Past h (remove g s).1 (given_back s g fs)
  remove-Past g h s fs p = elim (remove-Removes g s) [
    | stale gone q ↦ rw (q, gone) p
    | empties v slot reads at same there q ↦
        let new = vacated slot s.free_head in
        rw (q, reads)
          (set-Past g h v slot new s
            (record {
              slots = set s.slots g.index new;
              free_head = if ltb slot.generation u32_max then g.index else s.free_head;
              live = s.live - 1;
            })
            fs (if ltb g.generation u32_max then g.index ∷ fs else fs) at there (ground arith) refl
            (λ n. λ m. elim (Bool-cases (ltb g.generation u32_max)) [
              | inl e ↦ rw e ((λ k. n (sym k)), m)
              | inr e ↦ rw e m
            ])
            p)
  ]

  -- A handle that is removed is past.
  removed-Past :
      (h : Handle) (s : Slab A) (fs : List ℕ) {v : A}
      → IsWell s fs
      → get s h ≡ some v
      → Past h (remove h s).1 (given_back s h fs)
  removed-Past h s fs w e = elim (remove-Removes h s) [
    | stale gone q ↦ absurd (ground (arith, gone, e))
    | empties v slot reads at same there q ↦
        let new = vacated slot s.free_head in
        let now = get_elem?-set_self s.slots h.index new (get_elem?-lt s.slots h.index at) in
        elim (Bool-cases (ltb h.generation u32_max)) [
          | inl more ↦ rw (q, reads) (reissued new now (ground (arith, more, same)))
          | inr last ↦
              rw (q, reads, last)
                (retired new now (ground (arith, last, same))
                  (Misses-occupied s.slots h.index fs (ground (arith, at, there)) w.chained))
        ]
  ]

  pub modify-IsWell :
      (g : Handle) (f : A → A) (s : Slab A) (fs : List ℕ) → IsWell s fs → IsWell (modify g f s) fs
  modify-IsWell g f s fs w = elim (modify-Writes g f s) [
    | misses q ↦ rw q w
    | hits v slot at there q ↦
        let new : Slot A = record slot { state = occupied (f v) } in
        let off = Misses-occupied s.slots g.index fs (ground (arith, at, there)) w.chained in
        rw q (record {
          head = w.head;
          chained = Chained-set s.slots g.index new fs off w.chained;
          distinct = w.distinct;
          counted = ground (arith, w.counted, there, sum_by-set weight s.slots g.index new at);
          small = rw (length-set s.slots g.index new) w.small;
        })
  ]

  -- The free list after an operation.
  abbrev pub freed : SlabStep A → Slab A → List ℕ → List ℕ
  freed (inserts v) s fs = taken fs
  freed (writes g f) s fs = fs
  freed (removes g) s fs = given_back s g fs

  step-Past :
      (c : SlabStep A) (h : Handle) (s : Slab A) (fs : List ℕ)
      → IsWell s fs
      → Past h s fs
      → IsWell (step c s) (freed c s fs) × Past h (step c s) (freed c s fs)
  unfolding step
  step-Past (inserts v) h s fs w p = (insert-IsWell v s fs w, insert-Past v h s fs w p)
  step-Past (writes g f) h s fs w p = (modify-IsWell g f s fs w, modify-Past g h f s fs p)
  step-Past (removes g) h s fs w p = (remove-IsWell g s fs w, remove-Past g h s fs p)

  run-Past :
      (cs : List (SlabStep A)) (h : Handle) (s : Slab A) (fs : List ℕ)
      → IsWell s fs
      → Past h s fs
      → get (run cs s) h ≡ none
  unfolding run
  run-Past [] h s fs w p = Past-get h s fs p
  run-Past (c ∷ cs) h s fs w p =
      let both = step-Past c h s fs w p in run-Past cs h (step c s) (freed c s fs) both.0 both.1

  -- Once a handle that resolved in a well-formed slab has been removed, it never resolves again,
  -- through any sequence of insertions, writes and removals, even where its slot's counter is used
  -- up.
  pub removed_for_ever :
      (cs : List (SlabStep A)) (h : Handle) (s : Slab A) (fs : List ℕ) {v : A}
      → IsWell s fs
      → get s h ≡ some v
      → get (run cs (remove h s).1) h ≡ none
  removed_for_ever cs h s fs w e =
      run-Past cs h (remove h s).1 (given_back s h fs) (remove-IsWell h s fs w)
        (removed-Past h s fs w e)
