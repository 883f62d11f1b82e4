-- ===== src/Core/Ledger/Chains.antt =====
-- crates/core/src/ledger.rs: the two chains, and the operations that move a claim between them.
use rfq_matching_settlement.Prelude.{
  ℕ, zero, suc, not, Option, none, some, get_elem?, leb, ◌==◌, if◌then◌else◌,
}
use rfq_matching_settlement.Prelude.Action.{Action, ◌>>=◌, ◌>>◌, pure, gets, modify, ok_or, err_if}
use rfq_matching_settlement.Core.Types.{Amount, Ts, AccountIdx, amount_add, amount_sub}
use rfq_matching_settlement.Core.Slab
use rfq_matching_settlement.Core.Slab.{nil, Handle, Slab, SlabFull, slab_full, has_room}
use rfq_matching_settlement.Core.Account.{MirroredBalance}
use rfq_matching_settlement.Core.Reservation.{
  ClaimLinks, committed_links, reserved_links, Reservation, is_committed, prev_of, next_of,
  set_prev, set_next,
}
use rfq_matching_settlement.Core.Request.{Request}
use rfq_matching_settlement.Core.Ledger.{
  Ledger, LedgerError, stale_reservation, reservation_committed, stale_request, unknown_account,
  amount_overflow, update_account, set_owner_claim, is_some,
}

-- `Ledger::reservation_at`.
abbrev resolve : Slab Reservation → Option Handle → Option Reservation
resolve s none = none
resolve s (some h) = Slab.get s h

unfoldable pub reservation_at : Slab Reservation → ℕ → Option Reservation
reservation_at s index = resolve s (Slab.handle_at s index)

-- `Ledger::reservation_at_mut`, and a write through the reference that it returns.
abbrev touch_found : Option Handle → (Reservation → Reservation) → Ledger → Ledger
touch_found none f l = l
touch_found (some h) f l = record l { reservations = Slab.modify h f l.reservations }

unfoldable pub touch : ℕ → (Reservation → Reservation) → Ledger → Ledger
touch index f l = touch_found (Slab.handle_at l.reservations index) f l

-- The same under a link, which may be nil.
abbrev pub touch_link : ℕ → (Reservation → Reservation) → Ledger → Ledger
touch_link link f l = if link == nil then l else touch link f l

-- What follows a slot on its chain.
abbrev pub after_of : Option Reservation → ℕ
after_of none = nil
after_of (some r) = next_of r.links

-- `Ledger::splice_after`.
unfoldable pub splice_after : AccountIdx → ℕ → ℕ → Ledger → Ledger
splice_after account index after l =
    let next = after_of (reservation_at l.reservations after) in
    let l1 = touch after (set_next index) l in
    let l2 = touch index (λ r. set_next next (set_prev after r)) l1 in
    if next == nil
    then update_account account (λ e. record e { expiry_tail = index }) l2
    else touch next (set_prev index) l2

abbrev pub head_of : Option MirroredBalance → ℕ
head_of none = nil
head_of (some e) = e.expiry_head

-- `Ledger::splice_at_head`.
unfoldable pub splice_at_head : AccountIdx → ℕ → Ledger → Ledger
splice_at_head account index l =
    let head = head_of (get_elem? l.accounts account) in
    let l1 = touch index (λ r. set_next head (set_prev nil r)) l in
    let l2 =
      if head == nil
      then update_account account (λ e. record e { expiry_tail = index }) l1
      else touch head (set_prev index) l1 in
    update_account account (λ e. record e { expiry_head = index }) l2

-- A claim read by the walk: stop after it, or go on to the one before.
abbrev pub decide : ClaimLinks → Ts → ℕ → Option ℕ → Option ℕ
decide (reserved_links theirs prev next) expires candidate rest =
    if leb theirs expires then some candidate else rest
decide (committed_links r prev next) expires candidate rest = none

-- The walk back from the tail: the claim to insert after, or none. `none` of the outer option is a
-- walk that the fuel does not finish.
unfoldable pub find_after : ℕ → Slab Reservation → Ts → ℕ → Option (Option ℕ)
find_after zero s expires cursor = none
find_after (suc fuel) s expires cursor =
    if cursor == nil then some none else elim (reservation_at s cursor) [
      | none ↦ some none
      | some r ↦ elim r.links [
        | committed_links q prev next ↦ some none
        | reserved_links theirs prev next ↦
            if leb theirs expires then some (some cursor) else find_after fuel s expires prev
      ]
    ]

abbrev pub splice : Option ℕ → AccountIdx → ℕ → Ledger → Ledger
splice none account index l = splice_at_head account index l
splice (some after) account index l = splice_after account index after l

-- `Ledger::link_into_expiry_chain`, on fuel.
unfoldable pub link_into_expiry_chain : ℕ → AccountIdx → ℕ → Ts → Ledger → Option Ledger
link_into_expiry_chain fuel account index expires l = elim (get_elem? l.accounts account) [
  | none ↦ some l
  | some e ↦ elim (find_after fuel l.reservations expires e.expiry_tail) [
    | none ↦ none
    | some after ↦ some (splice after account index l)
  ]
]

-- `Ledger::unlink_from_chain`.
unfoldable pub unlink_from_chain : AccountIdx → ℕ → Ledger → Ledger
unlink_from_chain account index l = elim (reservation_at l.reservations index) [
  | none ↦ l
  | some r ↦
      let prev = prev_of r.links in
      let next = next_of r.links in
      let l1 =
        if prev == nil
        then update_account account (λ e. record e { expiry_head = next }) l
        else touch prev (set_next next) l in
      let l2 =
        if next == nil
        then update_account account (λ e. record e { expiry_tail = prev }) l1
        else touch next (set_prev prev) l1 in
      touch index (λ q. set_next nil (set_prev nil q)) l2
]

abbrev pub committed_head_of : Option Request → ℕ
committed_head_of none = nil
committed_head_of (some r) = r.committed_head

-- `Ledger::link_into_committed_list`.
unfoldable pub link_into_committed_list : Handle → ℕ → Ledger → Ledger
link_into_committed_list request index l =
    let head = committed_head_of (Slab.get l.requests request) in
    let l1 = touch index (λ r. record r { links = committed_links request nil head }) l in
    let l2 = touch_link head (set_prev index) l1 in
    record l2 {
      requests = Slab.modify request (λ r. record r { committed_head = index }) l2.requests;
    }

-- `Ledger::release`.
unfoldable pub release : Handle → Action Ledger LedgerError Amount
release claim = do
  found ← gets (λ l. Slab.get l.reservations claim)
  r ← ok_or found stale_reservation
  err_if (is_committed r) reservation_committed
  account ← gets (λ l. get_elem? l.accounts r.account)
  entry ← ok_or account unknown_account
  reserved ← ok_or (amount_sub entry.reserved r.amount) amount_overflow
  modify (unlink_from_chain r.account claim.index)
  modify (update_account r.account (λ e. record e { reserved = reserved }))
  modify (set_owner_claim r.owner none)
  modify (λ l. record l { reservations = (Slab.remove claim l.reservations).1 })
  pure r.amount

-- `Ledger::commit`.
unfoldable pub commit : Handle → Handle → Action Ledger LedgerError (Unit {0})
commit claim request = do
  found ← gets (λ l. Slab.get l.reservations claim)
  r ← ok_or found stale_reservation
  err_if (is_committed r) reservation_committed
  target ← gets (λ l. Slab.get l.requests request)
  err_if (not (is_some target)) stale_request
  account ← gets (λ l. get_elem? l.accounts r.account)
  entry ← ok_or account unknown_account
  reserved ← ok_or (amount_sub entry.reserved r.amount) amount_overflow
  committed ← ok_or (amount_add entry.committed r.amount) amount_overflow
  modify (unlink_from_chain r.account claim.index)
  modify (link_into_committed_list request claim.index)
  modify (update_account r.account (λ e. record e { reserved = reserved; committed = committed }))
