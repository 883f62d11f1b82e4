-- ===== src/Core/Ledger/Claims.antt =====
-- crates/core/src/ledger.rs: quantities summed over the claims of the slab.
use mathlib.Core.Option
use rfq_matching_settlement.Prelude.{
  ℕ, zero, suc, ◌+◌, ◌≤◌, ◌≡◌, refl, inl, inr, some, List, [], ◌∷◌, map, arith, get_elem?, sum_by,
  sum_by-set, le-sum_by, Option-cases,
}
use rfq_matching_settlement.Prelude.Result.{ok}
use rfq_matching_settlement.Core.Slab.{
  Handle, vacant, occupied, Slot, Slab, get, insert, modify, remove, value_of, vacated, read_slot,
}
use rfq_matching_settlement.Core.Slab.Freeing.{stale, empties, remove-Removes}
use rfq_matching_settlement.Core.Reservation.{Reservation}
use rfq_matching_settlement.Core.Ledger.Bare.{shape, bare_slot, bare_slab}

module _ {A : Type 0} (w : A → ℕ) where
  abbrev pub slot_weight : Slot A → ℕ
  slot_weight slot = elim slot.state [ vacant next ↦ 0 | occupied v ↦ w v ]

  abbrev pub claims : Slab A → ℕ
  claims s = sum_by slot_weight s.slots

  -- The slot that a handle resolves to.
  found :
      (s : Slab A) (h : Handle) {v : A}
      → get s h ≡ some v
      → (slot : Slot A) × (get_elem? s.slots h.index ≡ some slot)
        × (slot.generation ≡ h.generation)
        × (slot.state ≡ occupied v)
  unfolding get
  found s h {v} e = elim (Option-cases (get_elem? s.slots h.index)) [
    | inl q ↦ absurd (ground (arith, q, e))
    | inr (slot, q) ↦ (slot, q, ground (arith, q, e), ground (arith, q, e))
  ]

  pub le-claims : (s : Slab A) (h : Handle) {v : A} → get s h ≡ some v → w v ≤ claims s
  le-claims s h e =
      let (slot, at, now, there) = found s h e in
      ground (arith, there, le-sum_by slot_weight s.slots h.index at)

  pub claims-remove :
      (s : Slab A) (h : Handle) {v : A} → get s h ≡ some v → claims (remove h s).1 + w v ≡ claims s
  claims-remove s h e = elim (remove-Removes h s) [
    | stale gone r ↦ absurd (ground (arith, gone, e))
    | empties v slot reads at same there r ↦ ground (
      arith,
      r,
      there,
      reads,
      e,
      sum_by-set slot_weight s.slots h.index (vacated slot s.free_head) at,
    )
  ]

  pub claims-modify :
      (s : Slab A) (h : Handle) (f : A → A) {v : A}
      → get s h ≡ some v
      → claims (modify h f s) + w v ≡ claims s + w (f v)
  unfolding modify
  claims-modify s h f {v} e =
      let (slot, at, now, there) = found s h e in
      ground (
        arith,
        at,
        now,
        there,
        sum_by-set slot_weight s.slots h.index (record slot { state = occupied (f v) }) at,
      )

  pub claims-insert :
      (s : Slab A) (v : A) {h : Handle} {s' : Slab A}
      → insert v s ≡ (ok h, s')
      → claims s' ≡ claims s + w v
  unfolding insert
  claims-insert s v e = elim (Option-cases (get_elem? s.slots s.free_head)) [
    | inl q ↦ ground (arith, q, e)
    | inr (slot, q) ↦ ground (
      arith,
      q,
      e,
      sum_by-set slot_weight s.slots s.free_head (record slot { state = occupied v }) q,
    )
  ]

-- Neighbours do not matter to a quantity that does not look at them, nor to what resolves.
pub claims-bare :
    (w : Reservation → ℕ) (s : Slab Reservation)
    → ((r : Reservation) → w (shape r) ≡ w r)
    → claims w (bare_slab s) ≡ claims w s
claims-bare w s keeps = go s.slots
  where
    go :
        (slots : List (Slot Reservation))
        → sum_by (slot_weight w) (map bare_slot slots) ≡ sum_by (slot_weight w) slots
    go [] = refl
    go (slot ∷ slots) = elim (Option-cases (value_of slot.state)) [
      | inl e ↦ ground (arith, e, go slots)
      | inr (r, e) ↦ ground (arith, e, go slots, keeps r)
    ]

pub get-bare :
    (s : Slab Reservation) (h : Handle) → get (bare_slab s) h ≡ Option.map shape (get s h)
unfolding get
get-bare s h = go s.slots h.index
  where
    go :
        (slots : List (Slot Reservation)) (i : ℕ)
        → read_slot (get_elem? (map bare_slot slots) i) h.generation
          ≡ Option.map shape (read_slot (get_elem? slots i) h.generation)
    go [] i = refl
    go (slot ∷ slots) zero = ground arith
    go (slot ∷ slots) (suc i) = go slots i
