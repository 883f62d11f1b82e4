-- ===== src/Core/Slab/Past.antt =====
-- crates/core/src/slab.rs: a handle whose entry is gone, under insertions and writes.
use native.Mathlib.Decide.{ℕ_discrete}
use rfq_matching_settlement.Prelude.{
  ℕ, ◌+◌, ◌≤◌, ◌<◌, ◌≡◌, ◌≢◌, refl, sym, ap, ◌∙◌, inl, inr, none, some, List, [], ◌∷◌, arith,
  get_elem?, get_elem?-lt, get_elem?-set_self, get_elem?-set_ne, set, ◌==◌, Option-cases,
  Bool-cases,
}
use rfq_matching_settlement.Core.Slab.{
  Handle, occupied, Slot, Slab, insert, get, modify, remove, value_of,
}
use rfq_matching_settlement.Core.Slab.Free.{
  IsWell, Misses, full, fills, insert-Inserts, taken, first,
}

-- The operations that change a slab.
pub data SlabStep (A : Type 0) : Type 0 where
  inserts : A → SlabStep A
  writes : Handle → (A → A) → SlabStep A
  removes : Handle → SlabStep A

module _ {A : Type 0} where
  unfoldable pub step : SlabStep A → Slab A → Slab A
  step (inserts v) s = (insert v s).1
  step (writes h f) s = modify h f s
  step (removes h) s = (remove h s).1

  unfoldable pub run : List (SlabStep A) → Slab A → Slab A
  run [] s = s
  run (c ∷ cs) s = run cs (step c s)

  -- A handle that is past: its slot has a later generation, or is vacant and off the free list.
  pub data Past (h : Handle) (s : Slab A) (fs : List ℕ) : Type 0 where
    reissued :
        (slot : Slot A)
        → get_elem? s.slots h.index ≡ some slot
        → h.generation < slot.generation
        → Past h s fs
    retired :
        (slot : Slot A)
        → get_elem? s.slots h.index ≡ some slot
        → value_of slot.state ≡ none
        → Misses h.index fs
        → Past h s fs

  pub Past-get : (h : Handle) (s : Slab A) (fs : List ℕ) → Past h s fs → get s h ≡ none
  unfolding get
  Past-get h s fs (reissued slot at later) = ground (arith, at)
  Past-get h s fs (retired slot at empty off) = ground (arith, at)

  -- An insertion leaves a past handle past.
  pub insert-Past :
      (v : A) (h : Handle) (s : Slab A) (fs : List ℕ)
      → IsWell s fs
      → Past h s fs
      → Past h (insert v s).1 (taken fs)
  insert-Past v h s fs w p = elim (insert-Inserts v s fs w) [
    | full none_free q ↦ rw (q, none_free) (rw none_free at p)
    | fills i rest slot split at vacant_at q ↦ rw (q, split) (filled i rest slot at (rw split at p))
  ]
    where
      filled :
          (i : ℕ) (rest : List ℕ) (slot : Slot A)
          → get_elem? s.slots i ≡ some slot
          → Past h s (i ∷ rest)
          → Past h
              (record {
                slots = set s.slots i (record slot { state = occupied v });
                free_head = first rest;
                live = s.live + 1;
              })
              rest
      filled i rest slot at (retired old there empty off) =
          retired old
            (get_elem?-set_ne s.slots i h.index (record slot { state = occupied v })
                (λ e. off.0 (sym e))
              ∙ there)
            empty off.1
      filled i rest slot at (reissued old there later) = elim (ℕ_discrete i h.index) [
        | no n ↦
            reissued old
              (get_elem?-set_ne s.slots i h.index (record slot { state = occupied v }) n ∙ there)
              later
        | yes e ↦
            let new : Slot A = record slot { state = occupied v } in
            reissued new
              (ap (get_elem? (set s.slots i new)) (sym e)
                ∙ get_elem?-set_self s.slots i new (get_elem?-lt s.slots i at))
              (ground (arith, at, there, later, ap (get_elem? s.slots) e))
      ]

  -- What a write does: nothing, or a new value in an occupied slot of the same generation.
  pub data Writes (g : Handle) (f : A → A) (s s' : Slab A) : Type 0 where
    misses : s' ≡ s → Writes g f s s'
    hits :
        (v : A) (slot : Slot A)
        → get_elem? s.slots g.index ≡ some slot
        → slot.state ≡ occupied v
        → s' ≡ record s { slots = set s.slots g.index (record slot { state = occupied (f v) }) }
        → Writes g f s s'

  pub modify-Writes : (g : Handle) (f : A → A) (s : Slab A) → Writes g f s (modify g f s)
  unfolding modify
  modify-Writes g f s = elim (Option-cases (get_elem? s.slots g.index)) [
    | inl e ↦ misses (ground (arith, e))
    | inr (slot, e) ↦ elim (Option-cases (value_of slot.state)) [
      | inl empty ↦ misses (ground (arith, e))
      | inr (v, there) ↦ elim (Bool-cases (slot.generation == g.generation)) [
        | inl same ↦ hits v slot e (ground (arith, there)) (ground (arith, e))
        | inr other ↦ misses (ground (arith, e))
      ]
    ]
  ]

  -- A slot written over an occupied one, with a generation no earlier, leaves a past handle past.
  pub set-Past :
      (g h : Handle) (v : A) (slot new : Slot A) (s s' : Slab A) (fs gs : List ℕ)
      → get_elem? s.slots g.index ≡ some slot
      → slot.state ≡ occupied v
      → slot.generation ≤ new.generation
      → s'.slots ≡ set s.slots g.index new
      → (g.index ≢ h.index → Misses h.index fs → Misses h.index gs)
      → Past h s fs
      → Past h s' gs
  set-Past g h v slot new s s' fs gs at there grows q frees (retired old here empty off) =
      let apart : g.index ≢ h.index =
        λ e. ground (arith, at, there, here, empty, ap (get_elem? s.slots) e) in
      retired old
        (ap (λ xs. get_elem? xs h.index) q
          ∙ get_elem?-set_ne s.slots g.index h.index new apart
          ∙ here)
        empty (frees apart off)
  set-Past g h v slot new s s' fs gs at there grows q frees (reissued old here later) =
      elim (ℕ_discrete g.index h.index) [
        | no n ↦
            reissued old
              (ap (λ xs. get_elem? xs h.index) q
                ∙ get_elem?-set_ne s.slots g.index h.index new n
                ∙ here)
              later
        | yes e ↦
            reissued new
              (ap (λ xs. get_elem? xs h.index) q
                ∙ ap (get_elem? (set s.slots g.index new)) (sym e)
                ∙ get_elem?-set_self s.slots g.index new (get_elem?-lt s.slots g.index at))
              (ground (arith, at, here, later, grows, ap (get_elem? s.slots) e))
      ]

  pub modify-Past :
      (g h : Handle) (f : A → A) (s : Slab A) (fs : List ℕ) → Past h s fs → Past h (modify g f s) fs
  modify-Past g h f s fs p = elim (modify-Writes g f s) [
    | misses q ↦ rw q p
    | hits v slot at there q ↦ rw q (
        set-Past g h v slot (record slot { state = occupied (f v) }) s
          (record s { slots = set s.slots g.index (record slot { state = occupied (f v) }) }) fs fs
          at there (omega arith) refl (λ n. λ m. m) p)
  ]
