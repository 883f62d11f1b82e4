-- ===== src/Core/Ledger/Phase/Keeps.antt =====
-- crates/core/src/ledger.rs, the commit phase: what it does to the totals.
use rfq_matching_settlement.Prelude.{
  ℕ, ◌+◌, ◌-◌, ◌≤◌, ◌≡◌, refl, ap, ◌∙◌, inl, inr, false, none, some, arith, get_elem?, set,
  Option-cases, Bool-cases, u64_max, saturating_sub, saturating_add, saturating_add_exact,
}
use rfq_matching_settlement.Core.Types.{Amount, AccountIdx}
use rfq_matching_settlement.Core.Slab
use rfq_matching_settlement.Core.Slab.{Handle, Slab}
use rfq_matching_settlement.Core.Slab.Reads.{get-modify}
use rfq_matching_settlement.Core.Account.{MirroredBalance}
use rfq_matching_settlement.Core.Reservation.{Reservation, is_committed}
use rfq_matching_settlement.Core.Ledger.{Ledger, update_account}
use rfq_matching_settlement.Core.Ledger.Chains.{unlink_from_chain, link_into_committed_list}
use rfq_matching_settlement.Core.Ledger.Bare.{bare-unlink_from_chain}
use rfq_matching_settlement.Core.Ledger.Claims.{claims-modify, le-claims}
use rfq_matching_settlement.Core.Ledger.Tallies.{
  Tallied, reserved_by, committed_by, Tallied-bare, claim_found, account_found,
  set_owner_claim_frame,
}
use rfq_matching_settlement.Core.Ledger.Release.{update_account_reservations, Tallied-taken}
use rfq_matching_settlement.Core.Ledger.Commit.{touch_resolved, Tallied-moved, Exceeds, link_frame}
use rfq_matching_settlement.Core.Ledger.Phase.{
  less_reserved, reclaim, phase_release, phase_commit, at_most,
}

-- A write that reads the account first is a write of what it finds.
update_account_found :
    (k : AccountIdx) (f g : MirroredBalance → MirroredBalance) (b : MirroredBalance) (l : Ledger)
    → get_elem? l.accounts k ≡ some b
    → f b ≡ g b
    → update_account k f l ≡ update_account k g l
unfolding update_account
update_account_found k f g b l known same =
    rw (update_account, known)
      (ap (λ (e : MirroredBalance). record l { accounts = set l.accounts k e }) same)

-- Reclaiming a reserved claim of the account keeps the totals equal to the sums of the claims.
pub reclaim-Tallied :
    (claim : Handle) (r : Reservation) (b : MirroredBalance) (l : Ledger)
    → Tallied l
    → Slab.get l.reservations claim ≡ some r
    → is_committed r ≡ false
    → get_elem? l.accounts r.account ≡ some b
    → Tallied (reclaim r.account claim r l)
unfolding reclaim
reclaim-Tallied claim r b l t at reserved known =
    let l1 = unlink_from_chain r.account claim.index l in
    let same = bare-unlink_from_chain r.account claim.index l in
    let (r1, at1, a1, x1, o1, c1) = claim_found l l1 claim r same at in
    let (b1, known1, f1, res1, com1) = account_found l l1 r.account b same known in
    let total = b1.reserved - r.amount in
    let l2 = update_account r.account (less_reserved r.amount) l1 in
    let frame = set_owner_claim_frame r.owner none l2 in
    let exact =
      update_account_found r.account (less_reserved r.amount) (λ e. record e { reserved = total })
        b1 l1 known1 refl in
    Tallied-taken claim r1 r.account b1 total l1 (reclaim r.account claim r l)
      (Tallied-bare l l1 same t) at1 (c1 ∙ reserved) a1 known1 (omega (arith, x1))
      (frame.0 ∙ ap (λ (m : Ledger). m.accounts) exact)
      (ap (λ (s : Slab Reservation). (Slab.remove claim s).1)
        (frame.1 ∙ update_account_reservations r.account (less_reserved r.amount) l1))

-- In a ledger whose claims name known accounts, a release in the commit phase keeps every
-- account's stored totals equal to the sums of its claims.
pub phase_release-Tallied :
    (claim : Handle) (l : Ledger)
    → ((r : Reservation)
        → Slab.get l.reservations claim ≡ some r
        → (b : MirroredBalance) × (get_elem? l.accounts r.account ≡ some b))
    → Tallied l
    → Tallied (phase_release claim l)
unfolding phase_release
phase_release-Tallied claim l known t = elim (Option-cases (Slab.get l.reservations claim)) [
  | inl e ↦ rw (phase_release, e) t
  | inr (r, e) ↦ elim (Bool-cases (is_committed r)) [
    | inl c ↦ rw (phase_release, e, c) t
    | inr c ↦
        let (b, q) = known r e in rw (phase_release, e, c) (reclaim-Tallied claim r b l t e c q)
  ]
]

-- Shrinking a reserved claim leaves its account's reserved total too large by the difference.
shrunk-Exceeds :
    (claim : Handle) (r : Reservation) (kept : Amount) (k : AccountIdx) (slack : ℕ) (l : Ledger)
    → Tallied l
    → Slab.get l.reservations claim ≡ some r
    → is_committed r ≡ false
    → r.account ≡ k
    → kept + slack ≡ r.amount
    → Exceeds k slack (record l {
      reservations = Slab.modify claim (λ q. record q { amount = kept }) l.reservations;
    })
shrunk-Exceeds claim r kept k slack l t at reserved owner split a e found =
    let shrink : Reservation → Reservation = λ (q : Reservation). record q { amount = kept } in
    ground (
      arith,
      reserved,
      owner,
      split,
      t a e found,
      claims-modify (reserved_by a) l.reservations claim shrink at,
      claims-modify (committed_by a) l.reservations claim shrink at,
    )

committed_part-Tallied :
    (claim request : Handle) (keep : Amount) (r : Reservation) (b : MirroredBalance) (l : Ledger)
    → Tallied l
    → Slab.get l.reservations claim ≡ some r
    → is_committed r ≡ false
    → get_elem? l.accounts r.account ≡ some b
    → b.reserved + b.committed ≤ u64_max
    → Tallied (phase_commit claim request keep l)
unfolding phase_commit
committed_part-Tallied claim request keep r b l t at reserved known fits =
    let kept = at_most keep r.amount in
    let l1 = unlink_from_chain r.account claim.index l in
    let same = bare-unlink_from_chain r.account claim.index l in
    let (r1, at1, a1, x1, o1, c1) = claim_found l l1 claim r same at in
    let (b1, known1, f1, res1, com1) = account_found l l1 r.account b same known in
    let shrink : Reservation → Reservation = λ (q : Reservation). record q { amount = kept } in
    let l2 : Ledger = record l1 { reservations = Slab.modify claim shrink l1.reservations } in
    let exact = touch_resolved claim shrink l1 at1 in
    let r2 : Reservation = shrink r1 in
    let at2 : Slab.get l2.reservations claim ≡ some r2 =
      ground (arith, get-modify claim claim shrink l1.reservations, at1) in
    let less : kept ≤ r1.amount = ground (arith, x1) in
    let share = le-claims (reserved_by r.account) l.reservations claim at in
    let enough : r.amount ≤ b.reserved = ground (arith, share, reserved, t r.account b known) in
    let reserved_now = b1.reserved - r.amount in
    let committed_now = b1.committed + kept in
    let m = link_into_committed_list request claim.index l2 in
    let (accounts, _) = link_frame request claim r2 l2 (λ q. 0) at2 (λ q. refl) in
    let there : get_elem? m.accounts r.account ≡ some b1 =
      ap (λ xs. get_elem? xs r.account) accounts ∙ known1 in
    let exact_sum =
      saturating_add_exact u64_max b1.committed kept (omega (arith, com1, less, x1)) in
    let write =
      update_account_found r.account
        (λ e. record e {
          reserved = saturating_sub e.reserved r.amount;
          committed = saturating_add u64_max e.committed kept;
        })
        (λ e. record e { reserved = reserved_now; committed = committed_now }) b1 m there
        (ap (λ (c : ℕ). record b1 { reserved = reserved_now; committed = c }) exact_sum) in
    let moved =
      Tallied-moved request claim r2 r.account b1 reserved_now committed_now (r.amount - kept) l2
        (shrunk-Exceeds claim r1 kept r.account (r.amount - kept) l1 (Tallied-bare l l1 same t) at1
          (c1 ∙ reserved) a1 (omega (arith, less, x1)))
        at2 (c1 ∙ reserved) a1 known1 (omega (arith, less, x1)) refl in
    rw (phase_commit, at, reserved, exact, write) moved

-- In a ledger where the claim's account is known and its totals together fit a u64, committing a
-- part of a claim in the commit phase, the rest going free, keeps every account's stored totals
-- equal to the sums of its claims.
pub phase_commit-Tallied :
    (claim request : Handle) (keep : Amount) (l : Ledger)
    → ((r : Reservation)
        → Slab.get l.reservations claim ≡ some r
        → (b : MirroredBalance) × (get_elem? l.accounts r.account ≡ some b)
          × (b.reserved + b.committed ≤ u64_max))
    → Tallied l
    → Tallied (phase_commit claim request keep l)
unfolding phase_commit
phase_commit-Tallied claim request keep l known t =
    elim (Option-cases (Slab.get l.reservations claim)) [
      | inl e ↦ rw (phase_commit, e) t
      | inr (r, e) ↦ elim (Bool-cases (is_committed r)) [
        | inl c ↦ rw (phase_commit, e, c) t
        | inr c ↦
            let (b, q, fits) = known r e in
            committed_part-Tallied claim request keep r b l t e c q fits
      ]
    ]
