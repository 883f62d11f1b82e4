-- ===== src/Core/Slab/Reads.antt =====
-- crates/core/src/slab.rs: what a handle resolves to after each operation.
use mathlib.Core.Option
use native.Mathlib.Decide.{ℕ_discrete}
use rfq_matching_settlement.Prelude.{
  ℕ, ◌<◌, ◌≡◌, ◌≢◌, refl, sym, ap, ◌∙◌, inl, inr, true, Option, none, some, List, arith, length,
  get_elem?, get_elem?-lt, get_elem?-set_self, get_elem?-set_ne, set, if◌then◌else◌, Option-cases,
  Bool-cases,
}
use rfq_matching_settlement.Prelude.Result.{ok}
use rfq_matching_settlement.Core.Slab.{
  Handle, handle_eq, occupied, Slot, Slab, insert, get, modify, remove, value_of, vacated,
  read_slot,
}
use rfq_matching_settlement.Core.Slab.Free.{IsWell, full, fills, insert-Inserts}
use rfq_matching_settlement.Core.Slab.Freeing.{stale, empties, remove-Removes}

module _ {A : Type 0} where
  -- Reading at an index that a write missed, or hit.
  read_set_ne :
      (slots : List (Slot A)) (i : ℕ) (slot : Slot A) (h : Handle)
      → i ≢ h.index
      → read_slot (get_elem? (set slots i slot) h.index) h.generation
        ≡ read_slot (get_elem? slots h.index) h.generation
  read_set_ne slots i slot h n = rw (get_elem?-set_ne slots i h.index slot n)

  read_set_self :
      (slots : List (Slot A)) (i : ℕ) (slot : Slot A) (h : Handle)
      → i < length slots
      → i ≡ h.index
      → read_slot (get_elem? (set slots i slot) h.index) h.generation
        ≡ read_slot (some slot) h.generation
  read_set_self slots i slot h lt e =
      ap (λ (j : ℕ). read_slot (get_elem? (set slots i slot) j) h.generation) (sym e)
      ∙ ap (λ (o : Option (Slot A)). read_slot o h.generation) (get_elem?-set_self slots i slot lt)

  -- A handle that an insertion returns resolved to nothing before, and resolves to the value now;
  -- every other handle resolves to what it did.
  pub get-insert :
      (v : A) (s : Slab A) (fs : List ℕ) {h : Handle} {s' : Slab A} (g : Handle)
      → IsWell s fs
      → insert v s ≡ (ok h, s')
      → (get s h ≡ none) × (get s' g ≡ (if handle_eq g h then some v else get s g))
  unfolding get
  get-insert v s fs {h} {s'} g w q = elim (insert-Inserts v s fs w) [
    | full none_free r ↦ ground (arith, r)
    | fills i rest slot split at vacant_at r ↦
        let written : Slot A = record slot { state = occupied v } in
        let before : read_slot (get_elem? s.slots i) slot.generation ≡ none =
          ground (arith, at, vacant_at) in
        let lt = get_elem?-lt s.slots i at in
        (
          ground (arith, r, q, before),
          elim (ℕ_discrete i g.index) [
            | yes e ↦ ground (
              arith,
              r,
              q,
              at,
              vacant_at,
              ap (get_elem? s.slots) e,
              read_set_self s.slots i written g lt e,
            )
            | no n ↦ ground (arith, r, q, read_set_ne s.slots i written g n)
          ],
        )
  ]

  -- Equal handles resolve to the same value.
  get_same : (h g : Handle) (s : Slab A) → handle_eq g h ≡ true → get s g ≡ get s h
  unfolding get
  get_same h g s e =
      let here : g.index ≡ h.index = ground (arith, e) in
      let now : g.generation ≡ h.generation = ground (arith, e) in
      ap (λ (i : ℕ). read_slot (get_elem? s.slots i) g.generation) here
      ∙ ap (λ (n : ℕ). read_slot (get_elem? s.slots h.index) n) now

  -- A removed handle resolves to nothing, and every other handle to what it did.
  pub get-remove :
      (h g : Handle) (s : Slab A) → get (remove h s).1 g ≡ (if handle_eq g h then none else get s g)
  unfolding get
  get-remove h g s = elim (remove-Removes h s) [
    | stale gone r ↦ rw r (elim (Bool-cases (handle_eq g h)) [
      | inl same ↦ rw same (get_same h g s same ∙ gone)
      | inr other ↦ rw other refl
    ])
    | empties v slot reads at same there r ↦
        let lt = get_elem?-lt s.slots h.index at in
        rw r (elim (ℕ_discrete h.index g.index) [
          | yes e ↦ ground (
            arith,
            at,
            same,
            there,
            ap (get_elem? s.slots) e,
            read_set_self s.slots h.index (vacated slot s.free_head) g lt e,
          )
          | no n ↦ ground (arith, read_set_ne s.slots h.index (vacated slot s.free_head) g n)
        ])
  ]

  -- A write through a handle is read back through it, if it resolves, and through no other.
  pub get-modify :
      (h g : Handle) (f : A → A) (s : Slab A)
      → get (modify h f s) g ≡ (if handle_eq g h then Option.map f (get s g) else get s g)
  unfolding get modify
  get-modify h g f s = elim (Option-cases (get_elem? s.slots h.index)) [
    | inl e ↦ ground (arith, e, ap (get_elem? s.slots))
    | inr (slot, e) ↦ elim (Option-cases (value_of slot.state)) [
      | inl empty ↦ ground (arith, e, ap (get_elem? s.slots))
      | inr (v, there) ↦
          let lt = get_elem?-lt s.slots h.index e in
          let written : Slot A = record slot { state = occupied (f v) } in
          elim (ℕ_discrete h.index g.index) [
            | yes same ↦ ground (
              arith,
              e,
              there,
              ap (get_elem? s.slots) same,
              read_set_self s.slots h.index written g lt same,
            )
            | no n ↦ ground (arith, e, there, read_set_ne s.slots h.index written g n)
          ]
    ]
  ]
