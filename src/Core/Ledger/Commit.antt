-- ===== src/Core/Ledger/Commit.antt =====
-- crates/core/src/ledger.rs, `Ledger::commit`: what it does to the totals.
use rfq_matching_settlement.Prelude.{
  ℕ, ◌+◌, ◌-◌, ◌≡◌, refl, ap, ◌∙◌, inl, inr, false, some, arith, get_elem?, Option-cases,
  Bool-cases, ◌==◌, if◌then◌else◌,
}
use rfq_matching_settlement.Core.Types.{Amount, AccountIdx}
use rfq_matching_settlement.Core.Slab
use rfq_matching_settlement.Core.Slab.{nil, Handle, Slab}
use rfq_matching_settlement.Core.Account.{MirroredBalance}
use rfq_matching_settlement.Core.Reservation.{Reservation, is_committed, committed_links, set_prev}
use rfq_matching_settlement.Core.Ledger.{Ledger, update_account}
use rfq_matching_settlement.Core.Ledger.Chains.{
  link_into_committed_list, touch, touch_link, committed_head_of,
}
use rfq_matching_settlement.Core.Ledger.Bare.{shape, bare, bare-touch, shape-set_prev}
use rfq_matching_settlement.Core.Ledger.Claims.{claims, claims-modify}
use rfq_matching_settlement.Core.Ledger.Tallies.{
  Tallied, reserved_by, committed_by, claims_same, get_elem?-update_account, reserved_by-shape,
  committed_by-shape,
}
use rfq_matching_settlement.Core.Ledger.Release.{update_account_reservations}

-- The claim as it stands on the committed list of a request.
abbrev pub on_list : Handle → ℕ → Reservation → Reservation
on_list request head r = record r { links = committed_links request nil head }

-- A slot that a handle resolves to has that handle.
pub handle_at-get :
    {A : Type 0} (s : Slab A) (h : Handle) {v : A}
    → Slab.get s h ≡ some v
    → Slab.handle_at s h.index ≡ some h
unfolding Slab.get Slab.handle_at
handle_at-get s h e = elim (Option-cases (get_elem? s.slots h.index)) [
  | inl q ↦ absurd (ground (arith, q, e))
  | inr (slot, q) ↦ ground (arith, q, e)
]

pub touch_resolved :
    (h : Handle) (f : Reservation → Reservation) (l : Ledger) {r : Reservation}
    → Slab.get l.reservations h ≡ some r
    → touch h.index f l ≡ record l { reservations = Slab.modify h f l.reservations }
unfolding touch
touch_resolved h f l e = rw (touch, handle_at-get l.reservations h e) refl

touch_link_accounts :
    (i : ℕ) (f : Reservation → Reservation) (l : Ledger) → (touch_link i f l).accounts ≡ l.accounts
unfolding touch
touch_link_accounts i f l = ground arith

pub bare-touch_link : (i index : ℕ) (l : Ledger) → bare (touch_link i (set_prev index) l) ≡ bare l
bare-touch_link i index l = elim (Bool-cases (i == nil)) [
  | inl e ↦ rw e refl
  | inr e ↦ rw e (bare-touch i (set_prev index) l (shape-set_prev index))
]

-- Linking a claim into a committed list writes that claim's links, up to neighbours, and leaves
-- the accounts.
pub link_frame :
    (request : Handle) (claim : Handle) (r : Reservation) (l : Ledger) (w : Reservation → ℕ)
    → Slab.get l.reservations claim ≡ some r
    → ((q : Reservation) → w (shape q) ≡ w q)
    → ((link_into_committed_list request claim.index l).accounts ≡ l.accounts)
      × (claims w (link_into_committed_list request claim.index l).reservations
          ≡ claims w (
              Slab.modify claim
                (on_list request (committed_head_of (Slab.get l.requests request)))
                l.reservations))
unfolding link_into_committed_list
link_frame request claim r l w at keeps =
    let head = committed_head_of (Slab.get l.requests request) in
    let f = on_list request head in
    let l1 = touch claim.index f l in
    let exact = touch_resolved claim f l at in
    (
      touch_link_accounts head (set_prev claim.index) l1 ∙ ap (λ (m : Ledger). m.accounts) exact,
      claims_same w l1 (touch_link head (set_prev claim.index) l1) keeps
            (bare-touch_link head claim.index l1)
          ∙ ap (λ (m : Ledger). claims w m.reservations) exact,
    )

-- The totals of the ledger are the sums of its claims, but for an excess in one reserved total.
abbrev pub Exceeds : AccountIdx → ℕ → Ledger → Type 0
Exceeds k slack l =
    (a : AccountIdx) (e : MirroredBalance)
    → get_elem? l.accounts a ≡ some e
    → (e.reserved ≡ claims (reserved_by a) l.reservations + (if a == k then slack else 0))
      × (e.committed ≡ claims (committed_by a) l.reservations)

-- A claim moved from an account's reserved total, with any excess, to its committed total.
pub Tallied-moved :
    (request : Handle) (claim : Handle) (r : Reservation) (k : AccountIdx) (b : MirroredBalance)
    (reserved committed : Amount) (slack : ℕ) (l : Ledger)
    → Exceeds k slack l
    → Slab.get l.reservations claim ≡ some r
    → is_committed r ≡ false
    → r.account ≡ k
    → get_elem? l.accounts k ≡ some b
    → reserved ≡ b.reserved - (r.amount + slack)
    → committed ≡ b.committed + r.amount
    → Tallied (
        update_account k
          (λ e. record e { reserved = reserved; committed = committed })
          (link_into_committed_list request claim.index l))
Tallied-moved request claim r k b reserved committed slack l t at open_claim owner known less more a
      e found =
    let write : MirroredBalance → MirroredBalance =
      λ (e : MirroredBalance). record e { reserved = reserved; committed = committed } in
    let m = link_into_committed_list request claim.index l in
    let f = on_list request (committed_head_of (Slab.get l.requests request)) in
    let read = get_elem?-update_account k a write m in
    let (accounts, one) = link_frame request claim r l (reserved_by a) at (reserved_by-shape a) in
    let (_, two) = link_frame request claim r l (committed_by a) at (committed_by-shape a) in
    let here = ap (λ xs. get_elem? xs a) accounts in
    elim (Option-cases (get_elem? l.accounts a)) [
      | inl q ↦ absurd (ground (arith, q, found, read, here))
      | inr (c, q) ↦
          rw (update_account_reservations k write m, one, two)
            (ground (
              arith,
              q,
              found,
              read,
              here,
              known,
              less,
              more,
              open_claim,
              t a c q,
              ap (get_elem? l.accounts),
              claims-modify (reserved_by a) l.reservations claim f at,
              claims-modify (committed_by a) l.reservations claim f at,
            ))
    ]
