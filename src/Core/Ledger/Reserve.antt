-- ===== src/Core/Ledger/Reserve.antt =====
-- crates/core/src/ledger.rs, `Ledger::reserve`: what it does to the totals.
use native.Mathlib.Decide.{ℕ_discrete}
use rfq_matching_settlement.Prelude.{
  ℕ, suc, ◌≡◌, refl, ap, ◌∙◌, inl, inr, false, Option, none, some, List, [], ◌∷◌, arith, get_elem?,
  get_elem?-set_ne, length, Option-cases, Bool-cases, leb, ◌==◌,
}
use rfq_matching_settlement.Prelude.Result.{ok}
use rfq_matching_settlement.Core.Types.{Ts, AccountIdx}
use rfq_matching_settlement.Core.Slab
use rfq_matching_settlement.Core.Slab.{nil, Handle, Slab, Slot, occupied}
use rfq_matching_settlement.Core.Reservation.{Reservation, reserved_links, set_prev, set_next}
use rfq_matching_settlement.Core.Ledger.{Ledger, update_account}
use rfq_matching_settlement.Core.Ledger.Chains.{
  reservation_at, find_after, splice, splice_after, splice_at_head, touch, after_of, head_of,
}
use rfq_matching_settlement.Core.Ledger.Bare.{
  bare, bare-touch, bare-update_account, shape-set_prev, shape-set_next,
}

bare-splice_after :
    (a : AccountIdx) (i after : ℕ) (l : Ledger) → bare (splice_after a i after l) ≡ bare l
unfolding splice_after
bare-splice_after a i after l =
    let next = after_of (reservation_at l.reservations after) in
    let l1 = touch after (set_next i) l in
    let l2 = touch i (λ r. set_next next (set_prev after r)) l1 in
    let one = bare-touch after (set_next i) l (shape-set_next i) in
    let two = bare-touch i (λ r. set_next next (set_prev after r)) l1 (λ r. ground arith) in
    elim (Bool-cases (next == nil)) [
      | inl e ↦
          rw (splice_after, e)
            (bare-update_account a (λ e. record e { expiry_tail = i }) l2 (λ b. refl) ∙ two ∙ one)
      | inr e ↦
          rw (splice_after, e) (bare-touch next (set_prev i) l2 (shape-set_prev i) ∙ two ∙ one)
    ]

bare-splice_at_head : (a : AccountIdx) (i : ℕ) (l : Ledger) → bare (splice_at_head a i l) ≡ bare l
unfolding splice_at_head
bare-splice_at_head a i l =
    let head = head_of (get_elem? l.accounts a) in
    let l1 = touch i (λ r. set_next head (set_prev nil r)) l in
    let one = bare-touch i (λ r. set_next head (set_prev nil r)) l (λ r. ground arith) in
    elim (Bool-cases (head == nil)) [
      | inl e ↦
          rw (splice_at_head, e)
            (bare-update_account a (λ e. record e { expiry_head = i })
                (update_account a (λ e. record e { expiry_tail = i }) l1) (λ b. refl)
              ∙ bare-update_account a (λ e. record e { expiry_tail = i }) l1 (λ b. refl)
              ∙ one)
      | inr e ↦
          rw (splice_at_head, e)
            (bare-update_account a (λ e. record e { expiry_head = i }) (touch head (set_prev i) l1)
                (λ b. refl)
              ∙ bare-touch head (set_prev i) l1 (shape-set_prev i)
              ∙ one)
    ]

pub bare-splice :
    (after : Option ℕ) (a : AccountIdx) (i : ℕ) (l : Ledger) → bare (splice after a i l) ≡ bare l
bare-splice none a i l = bare-splice_at_head a i l
bare-splice (some after) a i l = bare-splice_after a i after l

-- The reserved claims that the links lead back to, from a link on.
pub data Back (s : Slab Reservation) : ℕ → List ℕ → Type 0 where
  starts : Back s nil []
  follows :
      (cursor : ℕ) (r : Reservation) (t : Ts) (prev next : ℕ) (rest : List ℕ)
      → (cursor == nil) ≡ false
      → reservation_at s cursor ≡ some r
      → r.links ≡ reserved_links t prev next
      → Back s prev rest
      → Back s cursor (cursor ∷ rest)

-- A walk back along a chain ends.
pub find_after_returns :
    (s : Slab Reservation) (t : Ts) (cursor : ℕ) (is : List ℕ)
    → Back s cursor is
    → (after : Option ℕ) × (find_after (suc (length is)) s t cursor ≡ some after)
unfolding find_after
find_after_returns s t cursor [] starts = (none, refl)
find_after_returns s t cursor (c ∷ is) (follows k r theirs prev next rest n at links chain) =
    elim (Bool-cases (leb theirs t)) [
      | inl e ↦ (some cursor, rw (find_after, n, at, links, e) refl)
      | inr e ↦
          let (after, q) = find_after_returns s t prev is chain in
          (after, rw (find_after, n, at, links, e) q)
    ]

-- A claim stays where it is when another is inserted.
insert_keeps :
    (s s' : Slab Reservation) (v : Reservation) (h : Handle) (i : ℕ) (r : Reservation)
    → Slab.insert v s ≡ (ok h, s')
    → reservation_at s i ≡ some r
    → reservation_at s' i ≡ some r
unfolding Slab.insert reservation_at Slab.handle_at Slab.get
insert_keeps s s' v h i r e at = elim (Option-cases (get_elem? s.slots s.free_head)) [
  | inl q ↦ absurd (ground (arith, q, e))
  | inr (slot, q) ↦ elim (ℕ_discrete s.free_head i) [
    | yes same ↦ absurd (ground (arith, q, e, at, ap (get_elem? s.slots) same))
    | no n ↦
        let written : Slot Reservation = record slot { state = occupied v } in
        ground (arith, q, e, at, get_elem?-set_ne s.slots s.free_head i written n)
  ]
]

pub Back-insert :
    (s s' : Slab Reservation) (v : Reservation) (h : Handle) (cursor : ℕ) (is : List ℕ)
    → Slab.insert v s ≡ (ok h, s')
    → Back s cursor is
    → Back s' cursor is
Back-insert s s' v h cursor [] e starts = starts
Back-insert s s' v h cursor (c ∷ is) e (follows k r t prev next rest n at links chain) =
    follows cursor r t prev next is n (insert_keeps s s' v h cursor r e at) links
      (Back-insert s s' v h prev is e chain)
