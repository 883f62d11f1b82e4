-- ===== src/Core/Ledger/Sound/Release.antt =====
-- crates/core/src/ledger.rs: normalisation and the operations of the commit phase, but for the
-- discharge, keep the books in order.
use rfq_matching_settlement.Prelude.{
  ℕ, ◌≤◌, ◌≡◌, refl, inl, inr, false, none, some, arith, Option-cases, Bool-cases, ◌==◌, u64_max,
  saturating_add, saturating_sub,
}
use native.Mathlib.Nat.{le_refl}
use rfq_matching_settlement.Core.Types.{Amount, AccountIdx}
use rfq_matching_settlement.Core.Slab
use rfq_matching_settlement.Core.Slab.{nil, Handle, Slab}
use rfq_matching_settlement.Core.Account.{MirroredBalance}
use rfq_matching_settlement.Core.Reservation.{Reservation, is_committed, committed_links, set_prev}
use rfq_matching_settlement.Core.Ledger.{Ledger, update_account, set_owner_claim}
use rfq_matching_settlement.Core.Ledger.Chains.{
  touch, touch_link, unlink_from_chain, link_into_committed_list, committed_head_of,
}
use rfq_matching_settlement.Core.Ledger.Bare.{bare, bare-unlink_from_chain}
use rfq_matching_settlement.Core.Ledger.Phase.{
  less_reserved, reclaim, phase_release, phase_commit, at_most,
}
use rfq_matching_settlement.Core.Ledger.Phase.Keeps.{
  reclaim-Tallied, phase_release-Tallied, phase_commit-Tallied,
}
use rfq_matching_settlement.Core.Ledger.Tallies.{claim_found}
use rfq_matching_settlement.Core.Ledger.Commit.{touch_resolved}
use rfq_matching_settlement.Core.Ledger.Sound.{
  IsSound, known_account, Shrinks, Shrinks-refl, Shrinks-trans, Shrinks-IsSound, Shrinks-bare,
  Shrinks-same, Shrinks-update_account, Shrinks-set_owner_claim, Shrinks-remove, Shrinks-modify,
  Shrinks-touch,
}

Shrinks-unlink : (k : AccountIdx) (i : ℕ) (l : Ledger) → Shrinks l (unlink_from_chain k i l)
Shrinks-unlink k i l = Shrinks-bare l (unlink_from_chain k i l) (bare-unlink_from_chain k i l)

Shrinks-reclaim :
    (k : AccountIdx) (h : Handle) (r : Reservation) (l : Ledger) → Shrinks l (reclaim k h r l)
unfolding reclaim
Shrinks-reclaim k h r l =
    let l1 = unlink_from_chain k h.index l in
    let l2 = update_account k (less_reserved r.amount) l1 in
    let l3 = set_owner_claim r.owner none l2 in
    Shrinks-trans (Shrinks-unlink k h.index l) (
      Shrinks-trans (Shrinks-update_account k (less_reserved r.amount) l1)
        (Shrinks-trans (Shrinks-set_owner_claim r.owner none l2) (Shrinks-remove h l3)))

reclaim-IsSound :
    (h : Handle) (r : Reservation) (l : Ledger)
    → Slab.get l.reservations h ≡ some r
    → is_committed r ≡ false
    → IsSound l
    → IsSound (reclaim r.account h r l)
reclaim-IsSound h r l at reserved s =
    let (b, known, fits) = known_account l h r s at in
    Shrinks-IsSound (Shrinks-reclaim r.account h r l)
      (reclaim-Tallied h r b l s.tallied at reserved known) s

Shrinks-phase_release : (claim : Handle) (l : Ledger) → Shrinks l (phase_release claim l)
unfolding phase_release
Shrinks-phase_release claim l = elim (Option-cases (Slab.get l.reservations claim)) [
  | inl e ↦ rw (phase_release, e) (Shrinks-refl l)
  | inr (r, e) ↦ elim (Bool-cases (is_committed r)) [
    | inl c ↦ rw (phase_release, e, c) (Shrinks-refl l)
    | inr c ↦ rw (phase_release, e, c) (Shrinks-reclaim r.account claim r l)
  ]
]

pub phase_release-IsSound :
    (claim : Handle) (l : Ledger) → IsSound l → IsSound (phase_release claim l)
phase_release-IsSound claim l s =
    Shrinks-IsSound (Shrinks-phase_release claim l)
      (phase_release-Tallied claim l
        (λ r e. let (b, q, fits) = known_account l claim r s e in (b, q)) s.tallied)
      s

Shrinks-link_committed :
    (request : Handle) (i : ℕ) (l : Ledger) → Shrinks l (link_into_committed_list request i l)
unfolding link_into_committed_list
Shrinks-link_committed request i l =
    let head = committed_head_of (Slab.get l.requests request) in
    let f : Reservation → Reservation =
      λ (r : Reservation). record r { links = committed_links request nil head } in
    let l1 = touch i f l in
    let l2 = touch_link head (set_prev i) l1 in
    Shrinks-trans (Shrinks-touch i f l (λ r. (refl, le_refl r.amount))) (
      Shrinks-trans (linked head l1)
        (Shrinks-same l2 (link_into_committed_list request i l) refl refl))
  where
    linked : (head : ℕ) (l1 : Ledger) → Shrinks l1 (touch_link head (set_prev i) l1)
    linked head l1 = elim (Bool-cases (head == nil)) [
      | inl e ↦ rw e (Shrinks-refl l1)
      | inr e ↦ rw e (Shrinks-touch head (set_prev i) l1 (λ r. (refl, le_refl r.amount)))
    ]

-- A claim cut down to a part of itself.
kept_touch :
    (claim : Handle) (r : Reservation) (kept : Amount) (l l1 : Ledger)
    → Slab.get l.reservations claim ≡ some r
    → bare l1 ≡ bare l
    → kept ≤ r.amount
    → Shrinks l1 (touch claim.index (λ q. record q { amount = kept }) l1)
kept_touch claim r kept l l1 at same less =
    let f : Reservation → Reservation = λ (q : Reservation). record q { amount = kept } in
    let (q, at1, owner, amount, of, kind) = claim_found l l1 claim r same at in
    rw (touch_resolved claim f l1 at1)
      (Shrinks-modify claim f l1 (λ p e. (refl, ground (arith, e, at1, amount, less))))

Shrinks-phase_commit :
    (claim request : Handle) (keep : Amount) (l : Ledger)
    → Shrinks l (phase_commit claim request keep l)
unfolding phase_commit
Shrinks-phase_commit claim request keep l = elim (Option-cases (Slab.get l.reservations claim)) [
  | inl e ↦ rw (phase_commit, e) (Shrinks-refl l)
  | inr (r, e) ↦ elim (Bool-cases (is_committed r)) [
    | inl c ↦ rw (phase_commit, e, c) (Shrinks-refl l)
    | inr c ↦
        let kept = at_most keep r.amount in
        let f : Reservation → Reservation = λ (q : Reservation). record q { amount = kept } in
        let l1 = unlink_from_chain r.account claim.index l in
        let l2 = touch claim.index f l1 in
        let l3 = link_into_committed_list request claim.index l2 in
        let g : MirroredBalance → MirroredBalance = λ (b : MirroredBalance). record b {
          reserved = saturating_sub b.reserved r.amount;
          committed = saturating_add u64_max b.committed kept;
        } in
        rw (phase_commit, e, c)
          (Shrinks-trans (Shrinks-unlink r.account claim.index l) (
            Shrinks-trans
              (kept_touch claim r kept l l1 e (bare-unlink_from_chain r.account claim.index l)
                (ground arith))
              (Shrinks-trans (Shrinks-link_committed request claim.index l2)
                (Shrinks-update_account r.account g l3))))
  ]
]

pub phase_commit-IsSound :
    (claim request : Handle) (keep : Amount) (l : Ledger)
    → IsSound l
    → IsSound (phase_commit claim request keep l)
phase_commit-IsSound claim request keep l s =
    Shrinks-IsSound (Shrinks-phase_commit claim request keep l)
      (phase_commit-Tallied claim request keep l (λ r e. known_account l claim r s e) s.tallied) s
