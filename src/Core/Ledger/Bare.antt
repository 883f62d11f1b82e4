-- ===== src/Core/Ledger/Bare.antt =====
-- crates/core/src/ledger.rs: what the chains are threaded through. Linking and unlinking change
-- links and endpoints, and nothing else of the ledger of claims.
use rfq_matching_settlement.Prelude.{
  zero, suc, ℕ, ◌≡◌, refl, ap, ◌∙◌, inl, inr, Bool, true, false, Option, none, some, List, [], ◌∷◌,
  map, arith, get_elem?, set, Option-cases, Bool-cases, ◌==◌, if◌then◌else◌,
}
use rfq_matching_settlement.Core.Types.{AccountIdx}
use rfq_matching_settlement.Core.Slab
use rfq_matching_settlement.Core.Slab.{
  nil, Handle, SlotState, vacant, occupied, Slot, Slab, value_of,
}
use rfq_matching_settlement.Core.Account.{MirroredBalance}
use rfq_matching_settlement.Core.Reservation.{
  ClaimLinks, reserved_links, committed_links, Reservation, set_prev, set_next, prev_of, next_of,
}
use rfq_matching_settlement.Core.Ledger.{Ledger, update_account}
use rfq_matching_settlement.Core.Ledger.Chains.{touch, reservation_at, unlink_from_chain}

abbrev pub blank : ClaimLinks → ClaimLinks
blank (reserved_links t prev next) = reserved_links t 0 0
blank (committed_links r prev next) = committed_links r 0 0

-- A claim without its neighbours.
abbrev pub shape : Reservation → Reservation
shape r = record r { links = blank r.links }

abbrev pub bare_state : SlotState Reservation → SlotState Reservation
bare_state (vacant next) = vacant next
bare_state (occupied r) = occupied (shape r)

abbrev pub bare_slot : Slot Reservation → Slot Reservation
bare_slot slot = record slot { state = bare_state slot.state }

abbrev pub bare_slab : Slab Reservation → Slab Reservation
bare_slab s = record s { slots = map bare_slot s.slots }

-- A balance without the endpoints of its chain.
abbrev pub bare_account : MirroredBalance → MirroredBalance
bare_account e = record e { expiry_head = 0; expiry_tail = 0 }

-- A ledger without its expiry links.
abbrev pub bare : Ledger → Ledger
bare l = record l {
  accounts = map bare_account l.accounts;
  reservations = bare_slab l.reservations;
}

map-set_same :
    {A : Type 0} (g : A → A) (xs : List A) (i : ℕ) (v x : A)
    → get_elem? xs i ≡ some x
    → g v ≡ g x
    → map g (set xs i v) ≡ map g xs
map-set_same g [] i v x e f = refl
map-set_same g (y ∷ xs) zero v x e f = ground arith
map-set_same g (y ∷ xs) (suc i) v x e f = ap (λ ys. g y ∷ ys) (map-set_same g xs i v x e f)

pub bare_slab-modify :
    (h : Handle) (f : Reservation → Reservation) (s : Slab Reservation)
    → ((r : Reservation) → shape (f r) ≡ shape r)
    → bare_slab (Slab.modify h f s) ≡ bare_slab s
unfolding Slab.modify
bare_slab-modify h f s keeps = elim (Option-cases (get_elem? s.slots h.index)) [
  | inl e ↦ rw (Slab.modify, e) refl
  | inr (slot, e) ↦ go slot e slot.state refl (slot.generation == h.generation) refl
]
  where
    go :
        (slot : Slot Reservation)
        → get_elem? s.slots h.index ≡ some slot
        → (state : SlotState Reservation) → slot.state ≡ state
        → (same : Bool) → (slot.generation == h.generation) ≡ same
        → bare_slab (Slab.modify h f s) ≡ bare_slab s
    go slot e state q false n = rw (Slab.modify, e, n) refl
    go slot e (vacant next) q true n = rw (Slab.modify, e, n, q) refl
    go slot e (occupied r) q true n =
        rw (Slab.modify, e, n, q)
          (ap (λ (xs : List (Slot Reservation)). record s { slots = xs })
            (map-set_same bare_slot s.slots h.index (record slot { state = occupied (f r) }) slot e
              (rw q (ap (λ (p : Reservation). record slot { state = occupied p }) (keeps r)))))

pub bare-touch :
    (i : ℕ) (f : Reservation → Reservation) (l : Ledger)
    → ((r : Reservation) → shape (f r) ≡ shape r)
    → bare (touch i f l) ≡ bare l
unfolding touch
bare-touch i f l keeps = go (Slab.handle_at l.reservations i) refl
  where
    go : (o : Option Handle) → Slab.handle_at l.reservations i ≡ o → bare (touch i f l) ≡ bare l
    go none e = rw (touch, e) refl
    go (some h) e =
        rw (touch, e)
          (ap
            (λ (s : Slab Reservation). record l {
              accounts = map bare_account l.accounts;
              reservations = s;
            })
            (bare_slab-modify h f l.reservations keeps))

pub bare-update_account :
    (a : AccountIdx) (f : MirroredBalance → MirroredBalance) (l : Ledger)
    → ((e : MirroredBalance) → bare_account (f e) ≡ bare_account e)
    → bare (update_account a f l) ≡ bare l
unfolding update_account
bare-update_account a f l keeps = go (get_elem? l.accounts a) refl
  where
    go :
        (o : Option MirroredBalance)
        → get_elem? l.accounts a ≡ o
        → bare (update_account a f l) ≡ bare l
    go none e = rw (update_account, e) refl
    go (some b) e =
        rw (update_account, e)
          (ap
            (λ (xs : List MirroredBalance). record l {
              accounts = xs;
              reservations = bare_slab l.reservations;
            })
            (map-set_same bare_account l.accounts a (f b) b e (keeps b)))

pub shape-set_prev : (link : ℕ) (r : Reservation) → shape (set_prev link r) ≡ shape r
shape-set_prev link r = ground arith

pub shape-set_next : (link : ℕ) (r : Reservation) → shape (set_next link r) ≡ shape r
shape-set_next link r = ground arith

-- Unlinking a claim from its account's chain.
pub bare-unlink_from_chain :
    (a : AccountIdx) (i : ℕ) (l : Ledger) → bare (unlink_from_chain a i l) ≡ bare l
unfolding unlink_from_chain
bare-unlink_from_chain a i l = go (reservation_at l.reservations i) refl
  where
    before : ℕ → ℕ → Ledger
    before prev next =
        if prev == nil
        then update_account a (λ e. record e { expiry_head = next }) l
        else touch prev (set_next next) l

    bare-before : (prev next : ℕ) → bare (before prev next) ≡ bare l
    bare-before prev next = elim (Bool-cases (prev == nil)) [
      | inl e ↦
          rw (before, e)
            (bare-update_account a (λ e. record e { expiry_head = next }) l (λ b. refl))
      | inr e ↦ rw (before, e) (bare-touch prev (set_next next) l (shape-set_next next))
    ]

    after : ℕ → ℕ → Ledger → Ledger
    after prev next m =
        if next == nil
        then update_account a (λ e. record e { expiry_tail = prev }) m
        else touch next (set_prev prev) m

    bare-after : (prev next : ℕ) (m : Ledger) → bare (after prev next m) ≡ bare m
    bare-after prev next m = elim (Bool-cases (next == nil)) [
      | inl e ↦
          rw (after, e) (bare-update_account a (λ e. record e { expiry_tail = prev }) m (λ b. refl))
      | inr e ↦ rw (after, e) (bare-touch next (set_prev prev) m (shape-set_prev prev))
    ]

    clear : Reservation → Reservation
    clear q = set_next nil (set_prev nil q)

    go :
        (o : Option Reservation)
        → reservation_at l.reservations i ≡ o
        → bare (unlink_from_chain a i l) ≡ bare l
    go none e = rw (unlink_from_chain, e) refl
    go (some r) e =
        rw (unlink_from_chain, e)
          (bare-touch i clear
              (after (prev_of r.links) (next_of r.links)
                (before (prev_of r.links) (next_of r.links)))
              (λ q. ground arith)
            ∙ bare-after (prev_of r.links) (next_of r.links)
                (before (prev_of r.links) (next_of r.links))
            ∙ bare-before (prev_of r.links) (next_of r.links))
