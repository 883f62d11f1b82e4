-- ===== src/Core/Engine/Frame/Claims.antt =====
-- crates/core/src/ledger.rs: the operations on claims keep the contracts and the states of requests.
use rfq_matching_settlement.Prelude.{
  ℕ, zero, suc, ◌+◌, refl, inl, inr, none, Option-cases, Bool-cases, ◌==◌, if◌then◌else◌,
  saturating_add, u64_max, saturating_sub,
}
use rfq_matching_settlement.Core.Types.{Amount, AccountIdx}
use rfq_matching_settlement.Core.Slab
use rfq_matching_settlement.Core.Slab.{nil, Handle, Slab, SlabFull}
use rfq_matching_settlement.Core.Account.{MirroredBalance}
use rfq_matching_settlement.Core.Reservation.{
  Reservation, prev_of, next_of, set_prev, set_next, committed_links, is_committed,
}
use rfq_matching_settlement.Core.Ledger.{Ledger, update_account, set_owner_claim}
use rfq_matching_settlement.Core.Ledger.Chains.{
  reservation_at, touch, touch_link, unlink_from_chain, link_into_committed_list, committed_head_of,
}
use rfq_matching_settlement.Core.Ledger.Phase.{
  less_reserved, reclaim, phase_release, phase_commit, at_most, discharge, discharge_from,
  discharge_committed,
}
use rfq_matching_settlement.Core.Engine.Frame.{
  Keeps, Keeps-refl, Keeps-trans, Keeps-modify, Keeps-update_account, Keeps-touch,
  Keeps-set_owner_claim, Keeps-reservations, Keeps-if,
}

Keeps-touch_link : (i : ℕ) (f : Reservation → Reservation) (l : Ledger) → Keeps l (touch_link i f l)
Keeps-touch_link i f l = Keeps-if (i == nil) (Keeps-refl l) (Keeps-touch i f l)

Keeps-unlink : (k : AccountIdx) (i : ℕ) (l : Ledger) → Keeps l (unlink_from_chain k i l)
unfolding unlink_from_chain
Keeps-unlink k i l = elim (Option-cases (reservation_at l.reservations i)) [
  | inl e ↦ rw (unlink_from_chain, e) (Keeps-refl l)
  | inr (r, e) ↦
      let prev = prev_of r.links in
      let next = next_of r.links in
      let l1 =
        if prev == nil
        then update_account k (λ e. record e { expiry_head = next }) l
        else touch prev (set_next next) l in
      let l2 =
        if next == nil
        then update_account k (λ e. record e { expiry_tail = prev }) l1
        else touch next (set_prev prev) l1 in
      rw (unlink_from_chain, e)
        (Keeps-trans
          (Keeps-if (prev == nil) (Keeps-update_account k (λ e. record e { expiry_head = next }) l)
            (Keeps-touch prev (set_next next) l))
          (Keeps-trans
            (Keeps-if (next == nil)
              (Keeps-update_account k (λ e. record e { expiry_tail = prev }) l1)
              (Keeps-touch next (set_prev prev) l1))
            (Keeps-touch i (λ q. set_next nil (set_prev nil q)) l2)))
]

pub Keeps-reclaim :
    (k : AccountIdx) (h : Handle) (r : Reservation) (l : Ledger) → Keeps l (reclaim k h r l)
unfolding reclaim
Keeps-reclaim k h r l =
    let l1 = unlink_from_chain k h.index l in
    let l2 = update_account k (less_reserved r.amount) l1 in
    let l3 = set_owner_claim r.owner none l2 in
    Keeps-trans (Keeps-unlink k h.index l) (
      Keeps-trans (Keeps-update_account k (less_reserved r.amount) l1) (
        Keeps-trans (Keeps-set_owner_claim r.owner none l2)
          (Keeps-reservations (Slab.remove h l3.reservations).1 l3)))

pub Keeps-phase_release : (claim : Handle) (l : Ledger) → Keeps l (phase_release claim l)
unfolding phase_release
Keeps-phase_release claim l = elim (Option-cases (Slab.get l.reservations claim)) [
  | inl e ↦ rw (phase_release, e) (Keeps-refl l)
  | inr (r, e) ↦
      rw (phase_release, e)
        (Keeps-if (is_committed r) (Keeps-refl l) (Keeps-reclaim r.account claim r l))
]

Keeps-link_committed :
    (request : Handle) (i : ℕ) (l : Ledger) → Keeps l (link_into_committed_list request i l)
unfolding link_into_committed_list
Keeps-link_committed request i l =
    let head = committed_head_of (Slab.get l.requests request) in
    let f : Reservation → Reservation =
      λ (r : Reservation). record r { links = committed_links request nil head } in
    let l1 = touch i f l in
    Keeps-trans (Keeps-touch i f l) (
      Keeps-trans (Keeps-touch_link head (set_prev i) l1) (
        Keeps-modify request (λ r. record r { committed_head = i })
          (touch_link head (set_prev i) l1) (λ r. refl)))

pub Keeps-phase_commit :
    (claim request : Handle) (keep : Amount) (l : Ledger)
    → Keeps l (phase_commit claim request keep l)
unfolding phase_commit
Keeps-phase_commit claim request keep l = elim (Option-cases (Slab.get l.reservations claim)) [
  | inl e ↦ rw (phase_commit, e) (Keeps-refl l)
  | inr (r, e) ↦
      let kept = at_most keep r.amount in
      let f : Reservation → Reservation = λ (q : Reservation). record q { amount = kept } in
      let l1 = unlink_from_chain r.account claim.index l in
      let l2 = touch claim.index f l1 in
      let l3 = link_into_committed_list request claim.index l2 in
      let g : MirroredBalance → MirroredBalance = λ (e : MirroredBalance). record e {
        reserved = saturating_sub e.reserved r.amount;
        committed = saturating_add u64_max e.committed kept;
      } in
      rw (phase_commit, e)
        (Keeps-if (is_committed r) (Keeps-refl l) (
          Keeps-trans (Keeps-unlink r.account claim.index l) (
            Keeps-trans (Keeps-touch claim.index f l1) (
              Keeps-trans (Keeps-link_committed request claim.index l2)
                (Keeps-update_account r.account g l3)))))
]

Keeps-discharge : (h : Handle) (r : Reservation) (l : Ledger) → Keeps l (discharge h r l)
unfolding discharge
Keeps-discharge h r l =
    let f : MirroredBalance → MirroredBalance =
      λ (e : MirroredBalance). record e { committed = saturating_sub e.committed r.amount } in
    let l1 = update_account r.account f l in
    let l2 = set_owner_claim r.owner none l1 in
    Keeps-trans (Keeps-update_account r.account f l) (
      Keeps-trans (Keeps-set_owner_claim r.owner none l1)
        (Keeps-reservations (Slab.remove h l2.reservations).1 l2))

Keeps-discharge_from : (rounds cursor : ℕ) (l : Ledger) → Keeps l (discharge_from rounds cursor l).1
unfolding discharge_from
Keeps-discharge_from zero cursor l = Keeps-refl l
Keeps-discharge_from (suc rounds) cursor l = elim (Bool-cases (cursor == nil)) [
  | inl e ↦ rw (discharge_from, e) (Keeps-refl l)
  | inr n ↦ elim (Option-cases (reservation_at l.reservations cursor)) [
    | inl e ↦ rw (discharge_from, n, e) (Keeps-refl l)
    | inr (r, e) ↦ elim (Option-cases (Slab.handle_at l.reservations cursor)) [
      | inl q ↦ rw (discharge_from, n, e, q) (Keeps-refl l)
      | inr (h, q) ↦
          rw (discharge_from, n, e, q)
            (Keeps-trans (Keeps-discharge h r l)
              (Keeps-discharge_from rounds (next_of r.links) (discharge h r l)))
    ]
  ]
]

pub Keeps-discharge_committed :
    (request : Handle) (l : Ledger) → Keeps l (discharge_committed request l).1
unfolding discharge_committed
Keeps-discharge_committed request l =
    let start = committed_head_of (Slab.get l.requests request) in
    Keeps-trans (Keeps-discharge_from (Slab.capacity l.reservations + 1) start l) (
      Keeps-modify request (λ r. record r { committed_head = nil; claim = none })
        (discharge_from (Slab.capacity l.reservations + 1) start l).1 (λ r. refl))
