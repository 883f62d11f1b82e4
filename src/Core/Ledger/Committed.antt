-- ===== src/Core/Ledger/Committed.antt =====
-- crates/core/src/ledger.rs, `Ledger::commit` and `Ledger::release`: committed capital is not
-- released.
use rfq_matching_settlement.Prelude.{
  ◌+◌, ◌-◌, ◌≤◌, ◌≡◌, refl, sym, ap, ◌∙◌, inl, inr, true, false, none, some, arith, get_elem?,
  Option-cases, Bool-cases, leb, u64_max,
}
use rfq_matching_settlement.Prelude.Result.{Result, ok, err}
use rfq_matching_settlement.Core.Types.{Amount}
use rfq_matching_settlement.Core.Slab
use rfq_matching_settlement.Core.Slab.{nil, Handle, Slab}
use rfq_matching_settlement.Core.Slab.Reads.{get-modify, get-remove}
use rfq_matching_settlement.Core.Account.{MirroredBalance}
use rfq_matching_settlement.Core.Reservation.{Reservation, is_committed, set_prev}
use rfq_matching_settlement.Core.Ledger.{
  Ledger, LedgerError, stale_reservation, reservation_committed, stale_request, unknown_account,
  amount_overflow, update_account, set_owner_claim,
}
use rfq_matching_settlement.Core.Ledger.Chains.{
  unlink_from_chain, link_into_committed_list, commit, release, touch, touch_link,
  committed_head_of,
}
use rfq_matching_settlement.Core.Ledger.Bare.{bare-unlink_from_chain}
use rfq_matching_settlement.Core.Ledger.Tallies.{Tallied, Tallied-bare, claim_found, account_found}
use rfq_matching_settlement.Core.Ledger.Release.{
  update_account_reservations, released, refuses, frees, release-Releases,
}
use rfq_matching_settlement.Core.Ledger.Commit.{
  on_list, touch_resolved, bare-touch_link, Tallied-moved,
}

-- The ledger that a commit leaves.
abbrev pub committed : Handle → Handle → Reservation → MirroredBalance → Ledger → Ledger
committed claim request r b l =
    update_account r.account
      (λ e. record e { reserved = b.reserved - r.amount; committed = b.committed + r.amount })
      (link_into_committed_list request claim.index (unlink_from_chain r.account claim.index l))

-- What a commit does: it refuses and changes nothing, or it moves a claim that is reserved.
pub data Commits (claim request : Handle) (l : Ledger) (a : Result LedgerError (Unit {0}) × Ledger)
    : Type 0 where
  rejects : (e : LedgerError) → a ≡ (err e, l) → Commits claim request l a
  moves :
      (r : Reservation) (b : MirroredBalance)
      → Slab.get l.reservations claim ≡ some r
      → is_committed r ≡ false
      → get_elem? l.accounts r.account ≡ some b
      → r.amount ≤ b.reserved
      → a ≡ (ok tt, committed claim request r b l)
      → Commits claim request l a

pub commit-Commits :
    (claim request : Handle) (l : Ledger) → Commits claim request l (commit claim request l)
unfolding commit
commit-Commits claim request l = elim (Option-cases (Slab.get l.reservations claim)) [
  | inl e ↦ rejects stale_reservation (rw (commit, e) refl)
  | inr (r, e) ↦ elim (Bool-cases (is_committed r)) [
    | inl c ↦ rejects reservation_committed (rw (commit, e, c) refl)
    | inr c ↦ elim (Option-cases (Slab.get l.requests request)) [
      | inl t ↦ rejects stale_request (rw (commit, e, c, t) refl)
      | inr (target, t) ↦ elim (Option-cases (get_elem? l.accounts r.account)) [
        | inl q ↦ rejects unknown_account (rw (commit, e, c, t, q) refl)
        | inr (b, q) ↦ elim (Bool-cases (leb r.amount b.reserved)) [
          | inr n ↦ rejects amount_overflow (rw (commit, e, c, t, q, n) refl)
          | inl n ↦ elim (Bool-cases (leb (b.committed + r.amount) u64_max)) [
            | inr o ↦ rejects amount_overflow (rw (commit, e, c, t, q, n, o) refl)
            | inl o ↦ moves r b e c q (ground (arith, n)) (rw (commit, e, c, t, q, n, o) refl)
          ]
        ]
      ]
    ]
  ]
]

-- A commit of any claim to any request keeps every account's stored totals equal to the sums of
-- its claims.
pub commit-Tallied :
    (claim request : Handle) (l : Ledger) → Tallied l → Tallied (commit claim request l).1
commit-Tallied claim request l t = elim (commit-Commits claim request l) [
  | rejects e q ↦ rw q t
  | moves r b at reserved known enough q ↦
      let l1 = unlink_from_chain r.account claim.index l in
      let same = bare-unlink_from_chain r.account claim.index l in
      let (r1, at1, a1, x1, o1, c1) = claim_found l l1 claim r same at in
      let (b1, known1, f1, res1, com1) = account_found l l1 r.account b same known in
      rw q (
        Tallied-moved request claim r1 r.account b1 (b.reserved - r.amount) (b.committed + r.amount)
          0 l1 (λ a e found. ground (arith, Tallied-bare l l1 same t a e found)) at1 (c1 ∙ reserved)
          a1 known1 (omega (arith, res1, x1)) (omega (arith, com1, x1)))
]

-- The claim after a commit.
committed_claim :
    (claim request : Handle) (r : Reservation) (b : MirroredBalance) (l : Ledger)
    → Slab.get l.reservations claim ≡ some r
    → (q : Reservation) × (Slab.get (committed claim request r b l).reservations claim ≡ some q)
      × (is_committed q ≡ true)
      × (q.account ≡ r.account)
      × (q.amount ≡ r.amount)
unfolding link_into_committed_list
committed_claim claim request r b l at =
    let l1 = unlink_from_chain r.account claim.index l in
    let (r1, at1, a1, x1, o1, c1) =
      claim_found l l1 claim r (bare-unlink_from_chain r.account claim.index l) at in
    let head = committed_head_of (Slab.get l1.requests request) in
    let f = on_list request head in
    let l2 = touch claim.index f l1 in
    let exact = touch_resolved claim f l1 at1 in
    let there : Slab.get l2.reservations claim ≡ some (f r1) =
      ap (λ (m : Ledger). Slab.get m.reservations claim) exact
      ∙ ground (arith, get-modify claim claim f l1.reservations, at1) in
    let (q, at2, a2, x2, o2, c2) =
      claim_found l2 (touch_link head (set_prev claim.index) l2) claim (f r1)
        (bare-touch_link head claim.index l2) there in
    (
      q,
      ap (λ (s : Slab Reservation). Slab.get s claim)
            (update_account_reservations r.account
              (λ (e : MirroredBalance). record e {
                reserved = b.reserved - r.amount;
                committed = b.committed + r.amount;
              })
              (link_into_committed_list request claim.index l1))
          ∙ at2,
      c2,
      a2 ∙ a1,
      x2 ∙ x1,
    )

-- Capital that has been committed is not released: the release of its claim is refused as
-- committed, and changes nothing.
pub committed_not_released :
    (claim request : Handle) (l l' : Ledger)
    → commit claim request l ≡ (ok tt, l')
    → release claim l' ≡ (err reservation_committed, l')
unfolding release
committed_not_released claim request l l' h = elim (commit-Commits claim request l) [
  | rejects e q ↦ absurd (ground (arith, q, h))
  | moves r b at reserved known enough q ↦
      let same : committed claim request r b l ≡ l' = ground (arith, q, h) in
      let (p, there, final, a, x) = committed_claim claim request r b l at in
      let now : Slab.get l'.reservations claim ≡ some p =
        ap (λ (m : Ledger). Slab.get m.reservations claim) (sym same) ∙ there in
      rw (release, now, final) refl
]

-- A claim is released once: after a release that succeeds, its handle is stale.
pub release_once :
    (claim : Handle) (x : Amount) (l l' : Ledger)
    → release claim l ≡ (ok x, l')
    → release claim l' ≡ (err stale_reservation, l')
unfolding release
release_once claim x l l' h = elim (release-Releases claim l) [
  | refuses e q ↦ absurd (ground (arith, q, h))
  | frees r b at reserved known enough q ↦
      let total = b.reserved - r.amount in
      let same : released claim r total l ≡ l' = ground (arith, q, h) in
      let l3 = set_owner_claim r.owner none (
        update_account r.account (λ (e : MirroredBalance). record e { reserved = total })
          (unlink_from_chain r.account claim.index l)) in
      let gone : Slab.get l'.reservations claim ≡ none =
        ap (λ (m : Ledger). Slab.get m.reservations claim) (sym same)
        ∙ get-remove claim claim l3.reservations
        ∙ ground arith in
      rw (release, gone) refl
]
