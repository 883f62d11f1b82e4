-- ===== src/Core/Ledger/Phase.antt =====
-- crates/core/src/ledger.rs: normalisation, and the operations of the commit phase.
pub mod Keeps
use rfq_matching_settlement.Prelude.{
  ℕ, zero, suc, ◌+◌, Bool, true, false, Option, none, some, List, [], ◌∷◌, get_elem?, ltb, leb,
  ◌==◌, if◌then◌else◌, u32_max, u64_max, saturating_add, saturating_sub,
}
use rfq_matching_settlement.Prelude.Result.{Result, ok, err}
use rfq_matching_settlement.Core.Types.{Amount, Ts, AccountIdx}
use rfq_matching_settlement.Core.Slab
use rfq_matching_settlement.Core.Slab.{nil, Handle, Slab}
use rfq_matching_settlement.Core.Account.{MirroredBalance, available}
use rfq_matching_settlement.Core.Reservation.{
  ResOwner, Reservation, is_committed, is_expired_at, next_of,
}
use rfq_matching_settlement.Core.Request.{Request}
use rfq_matching_settlement.Core.Ledger.{
  Ledger, LedgerError, unknown_account, update_account, set_owner_claim,
}
use rfq_matching_settlement.Core.Ledger.Chains.{
  reservation_at, touch, unlink_from_chain, link_into_committed_list, committed_head_of,
}

abbrev pub less_reserved : Amount → MirroredBalance → MirroredBalance
less_reserved amount e = record e { reserved = saturating_sub e.reserved amount }

-- One round of the loop of `release_expired`, on an expired claim.
unfoldable pub reclaim : AccountIdx → Handle → Reservation → Ledger → Ledger
reclaim account h r l =
    let l1 = unlink_from_chain account h.index l in
    let l2 = update_account account (less_reserved r.amount) l1 in
    let l3 = set_owner_claim r.owner none l2 in
    record l3 { reservations = (Slab.remove h l3.reservations).1 }

-- The loop of `release_expired` from a link on, on fuel.
unfoldable pub reclaim_from : ℕ → AccountIdx → Ts → ℕ → ℕ → Ledger → Option (ℕ × Ledger)
unfolding reclaim
reclaim_from zero account now cursor reclaimed l = none
reclaim_from (suc fuel) account now cursor reclaimed l =
    if cursor == nil then some (reclaimed, l) else elim (reservation_at l.reservations cursor) [
      | none ↦ some (reclaimed, l)
      | some r ↦ elim (is_expired_at r now) [
        | none ↦ some (reclaimed, l)
        | some expired ↦
            if expired
            then elim (Slab.handle_at l.reservations cursor) [
              | none ↦ some (reclaimed, l)
              | some h ↦
                  reclaim_from fuel account now (next_of r.links)
                    (saturating_add u32_max reclaimed 1) (reclaim account h r l)
            ]
            else some (reclaimed, l)
      ]
    ]

-- `Ledger::release_expired`.
unfoldable pub release_expired :
    ℕ → AccountIdx → Ts → Ledger → Option (Result LedgerError ℕ × Ledger)
unfolding reclaim_from
release_expired fuel account now l = elim (get_elem? l.accounts account) [
  | none ↦ some (err unknown_account, l)
  | some e ↦ elim (reclaim_from fuel account now e.expiry_head 0 l) [
    | none ↦ none
    | some (reclaimed, l1) ↦ some (ok reclaimed, l1)
  ]
]

-- `CommitPhase::release`: nothing on a claim that does not resolve, or is committed.
unfoldable pub phase_release : Handle → Ledger → Ledger
unfolding reclaim
phase_release claim l = elim (Slab.get l.reservations claim) [
  | none ↦ l
  | some r ↦ if is_committed r then l else reclaim r.account claim r l
]

-- `Amount(keep.0.min(reserved_before.0))`.
abbrev pub at_most : Amount → Amount → Amount
at_most keep amount = if leb keep amount then keep else amount

-- `CommitPhase::commit`: the part kept is committed, and the rest is free.
unfoldable pub phase_commit : Handle → Handle → Amount → Ledger → Ledger
phase_commit claim request keep l = elim (Slab.get l.reservations claim) [
  | none ↦ l
  | some r ↦
      if is_committed r
      then l
      else (let kept = at_most keep r.amount in
          let l1 = unlink_from_chain r.account claim.index l in
          let l2 = touch claim.index (λ q. record q { amount = kept }) l1 in
          let l3 = link_into_committed_list request claim.index l2 in
          update_account r.account
            (λ e. record e {
              reserved = saturating_sub e.reserved r.amount;
              committed = saturating_add u64_max e.committed kept;
            })
            l3)
]

-- `CommitPhase::close_quote`.
unfoldable pub phase_close_quote : Handle → Ledger → Ledger
phase_close_quote quote l = record l { quotes = (Slab.remove quote l.quotes).1 }

-- One round of the loop of `discharge_committed`.
unfoldable pub discharge : Handle → Reservation → Ledger → Ledger
discharge h r l =
    let l1 =
      update_account r.account (λ e. record e { committed = saturating_sub e.committed r.amount })
        l in
    let l2 = set_owner_claim r.owner none l1 in
    record l2 { reservations = (Slab.remove h l2.reservations).1 }

-- The loop: one round more than the capacity of the slab, at most. The list holds what `visit` is
-- called with.
unfoldable pub discharge_from : ℕ → ℕ → Ledger → List (ResOwner × Amount) × Ledger
unfolding discharge
discharge_from zero cursor l = ([], l)
discharge_from (suc rounds) cursor l =
    if cursor == nil then ([], l) else elim (reservation_at l.reservations cursor) [
      | none ↦ ([], l)
      | some r ↦ elim (Slab.handle_at l.reservations cursor) [
        | none ↦ ([], l)
        | some h ↦
            let (visited, l1) = discharge_from rounds (next_of r.links) (discharge h r l) in
            ((r.owner, r.amount) ∷ visited, l1)
      ]
    ]

abbrev clear_request : Request → Request
clear_request r = record r { committed_head = nil; claim = none }

-- `CommitPhase::discharge_committed`.
unfoldable pub discharge_committed : Handle → Ledger → List (ResOwner × Amount) × Ledger
unfolding discharge_from
discharge_committed request l =
    let (visited, l1) =
      discharge_from (Slab.capacity l.reservations + 1)
        (committed_head_of (Slab.get l.requests request)) l in
    (visited, record l1 { requests = Slab.modify request clear_request l1.requests })
