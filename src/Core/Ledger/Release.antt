-- ===== src/Core/Ledger/Release.antt =====
-- crates/core/src/ledger.rs, `Ledger::release`: what it does to the totals.
use rfq_matching_settlement.Prelude.{
  ◌-◌, ◌≤◌, ◌≡◌, refl, ap, ◌∙◌, inl, inr, false, none, some, arith, get_elem?, Option-cases,
  Bool-cases, leb,
}
use rfq_matching_settlement.Prelude.Result.{Result, ok, err}
use rfq_matching_settlement.Core.Types.{Amount, AccountIdx}
use rfq_matching_settlement.Core.Slab
use rfq_matching_settlement.Core.Slab.{Handle, Slab}
use rfq_matching_settlement.Core.Account.{MirroredBalance}
use rfq_matching_settlement.Core.Reservation.{Reservation, is_committed}
use rfq_matching_settlement.Core.Ledger.{
  Ledger, LedgerError, stale_reservation, reservation_committed, unknown_account, amount_overflow,
  update_account, set_owner_claim,
}
use rfq_matching_settlement.Core.Ledger.Chains.{unlink_from_chain, release}
use rfq_matching_settlement.Core.Ledger.Bare.{bare-unlink_from_chain}
use rfq_matching_settlement.Core.Ledger.Claims.{claims-remove}
use rfq_matching_settlement.Core.Ledger.Tallies.{
  Tallied, reserved_by, committed_by, Tallied-bare, claim_found, account_found,
  get_elem?-update_account, set_owner_claim_frame,
}

-- The ledger that a release leaves: the claim unlinked, the reserved total written, the owner
-- without a claim and the slot free.
abbrev pub released : Handle → Reservation → Amount → Ledger → Ledger
released claim r total l =
    let l1 = unlink_from_chain r.account claim.index l in
    let l2 = update_account r.account (λ e. record e { reserved = total }) l1 in
    let l3 = set_owner_claim r.owner none l2 in
    record l3 { reservations = (Slab.remove claim l3.reservations).1 }

-- What a release does: it refuses and changes nothing, or it frees a claim that is reserved.
pub data Releases (claim : Handle) (l : Ledger) (a : Result LedgerError Amount × Ledger)
    : Type 0 where
  refuses : (e : LedgerError) → a ≡ (err e, l) → Releases claim l a
  frees :
      (r : Reservation) (b : MirroredBalance)
      → Slab.get l.reservations claim ≡ some r
      → is_committed r ≡ false
      → get_elem? l.accounts r.account ≡ some b
      → r.amount ≤ b.reserved
      → a ≡ (ok r.amount, released claim r (b.reserved - r.amount) l)
      → Releases claim l a

pub release-Releases : (claim : Handle) (l : Ledger) → Releases claim l (release claim l)
unfolding release
release-Releases claim l = elim (Option-cases (Slab.get l.reservations claim)) [
  | inl e ↦ refuses stale_reservation (rw (release, e) refl)
  | inr (r, e) ↦ elim (Bool-cases (is_committed r)) [
    | inl c ↦ refuses reservation_committed (rw (release, e, c) refl)
    | inr c ↦ elim (Option-cases (get_elem? l.accounts r.account)) [
      | inl q ↦ refuses unknown_account (rw (release, e, c, q) refl)
      | inr (b, q) ↦ elim (Bool-cases (leb r.amount b.reserved)) [
        | inr n ↦ refuses amount_overflow (rw (release, e, c, q, n) refl)
        | inl n ↦ frees r b e c q (ground (arith, n)) (rw (release, e, c, q, n) refl)
      ]
    ]
  ]
]

pub update_account_reservations :
    (k : AccountIdx) (f : MirroredBalance → MirroredBalance) (l : Ledger)
    → (update_account k f l).reservations ≡ l.reservations
unfolding update_account
update_account_reservations k f l = ground arith

-- A reserved claim off the slab, and its amount off its account's reserved total.
pub Tallied-taken :
    (claim : Handle) (r : Reservation) (k : AccountIdx) (b : MirroredBalance) (total : Amount)
    (l l' : Ledger)
    → Tallied l
    → Slab.get l.reservations claim ≡ some r
    → is_committed r ≡ false
    → r.account ≡ k
    → get_elem? l.accounts k ≡ some b
    → total ≡ b.reserved - r.amount
    → l'.accounts ≡ (update_account k (λ e. record e { reserved = total }) l).accounts
    → l'.reservations ≡ (Slab.remove claim l.reservations).1
    → Tallied l'
Tallied-taken claim r k b total l l' t at reserved owner known sum accounts slab a e found =
    let write : MirroredBalance → MirroredBalance =
      λ (e : MirroredBalance). record e { reserved = total } in
    let read = get_elem?-update_account k a write l in
    let here = ap (λ xs. get_elem? xs a) accounts in
    elim (Option-cases (get_elem? l.accounts a)) [
      | inl q ↦ absurd (ground (arith, q, found, read, here))
      | inr (c, q) ↦ rw slab (
          ground (
            arith,
            q,
            found,
            read,
            here,
            known,
            sum,
            reserved,
            t a c q,
            ap (get_elem? l.accounts),
            claims-remove (reserved_by a) l.reservations claim at,
            claims-remove (committed_by a) l.reservations claim at,
          ))
    ]

-- Taking a reserved claim off the books takes its amount off its account's reserved total.
pub released-Tallied :
    (claim : Handle) (r : Reservation) (b : MirroredBalance) (l : Ledger)
    → Tallied l
    → Slab.get l.reservations claim ≡ some r
    → is_committed r ≡ false
    → get_elem? l.accounts r.account ≡ some b
    → Tallied (released claim r (b.reserved - r.amount) l)
released-Tallied claim r b l t at reserved known =
    let l1 = unlink_from_chain r.account claim.index l in
    let total = b.reserved - r.amount in
    let l2 = update_account r.account (λ (e : MirroredBalance). record e { reserved = total }) l1 in
    let same = bare-unlink_from_chain r.account claim.index l in
    let frame = set_owner_claim_frame r.owner none l2 in
    let (r1, at1, a1, x1, o1, c1) = claim_found l l1 claim r same at in
    let (b1, known1, f1, res1, com1) = account_found l l1 r.account b same known in
    Tallied-taken claim r1 r.account b1 total l1 (released claim r total l)
      (Tallied-bare l l1 same t) at1 (c1 ∙ reserved) a1 known1 (omega (arith, res1, x1)) frame.0
      (ap (λ (s : Slab Reservation). (Slab.remove claim s).1)
        (frame.1
          ∙ update_account_reservations r.account
              (λ (e : MirroredBalance). record e { reserved = total }) l1))

-- A release through any handle keeps every account's stored totals equal to the sums of its
-- claims.
pub release-Tallied : (claim : Handle) (l : Ledger) → Tallied l → Tallied (release claim l).1
release-Tallied claim l t = elim (release-Releases claim l) [
  | refuses e q ↦ rw q t
  | frees r b at reserved known enough q ↦ rw q (released-Tallied claim r b l t at reserved known)
]
