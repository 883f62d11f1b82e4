-- ===== src/Core/Ledger/Admission.antt =====
-- crates/core/src/ledger.rs: claims taken, alone or together with their owner. The walk of the
-- expiry chain is on fuel, and `none` is a walk that the fuel does not finish.
use rfq_matching_settlement.Prelude.{ℕ, not, Option, none, some, if◌then◌else◌}
use rfq_matching_settlement.Prelude.Result.{Result, ok, err}
use rfq_matching_settlement.Core.Types.{Amount, Ts, AccountIdx}
use rfq_matching_settlement.Core.Slab
use rfq_matching_settlement.Core.Slab.{Handle, Slab, SlabFull, has_room}
use rfq_matching_settlement.Core.Reservation.{
  ResOwner, quote_owner, request_owner, Reservation, new_reserved,
}
use rfq_matching_settlement.Core.Quote.{Quote}
use rfq_matching_settlement.Core.Request.{Request}
use rfq_matching_settlement.Core.Ledger.{
  Ledger, LedgerError, reservation_slab, request_slab, quote_slab, slab_exhausted, stale_owner,
  owner_already_claimed, update_account, check_reservable, owner_claim, set_owner_claim, is_some,
}
use rfq_matching_settlement.Core.Ledger.Chains.{link_into_expiry_chain}

-- `Ledger::link_claim`.
unfoldable pub link_claim :
    ℕ → AccountIdx → Handle → Ts → ResOwner → Amount → Ledger → Option Ledger
link_claim fuel account claim expires owner reserved l =
    elim (link_into_expiry_chain fuel account claim.index expires l) [
      | none ↦ none
      | some l1 ↦ some (
          set_owner_claim owner (some claim)
            (update_account account (λ e. record e { reserved = reserved }) l1))
    ]

-- A claim linked, once the slab has taken it.
abbrev pub finish_claim :
    ℕ
    → AccountIdx
    → Ts
    → ResOwner
    → Amount
    → Ledger
    → Result SlabFull Handle × Slab Reservation
    → Option (Result LedgerError Handle × Ledger)
finish_claim fuel account expires owner reserved l (err e, slab) =
    some (err (slab_exhausted reservation_slab), record l { reservations = slab })
finish_claim fuel account expires owner reserved l (ok claim, slab) =
    elim (link_claim fuel account claim expires owner reserved (record l { reservations = slab })) [
      | none ↦ none
      | some l1 ↦ some (ok claim, l1)
    ]

-- A claim taken in the slab, then linked.
unfoldable pub take_claim :
    ℕ
    → AccountIdx
    → Amount
    → Ts
    → ResOwner
    → Amount
    → Ledger
    → Option (Result LedgerError Handle × Ledger)
take_claim fuel account amount expires owner reserved l =
    finish_claim fuel account expires owner reserved l
      (Slab.insert (new_reserved account amount owner expires) l.reservations)

-- `Ledger::reserve`.
unfoldable pub reserve :
    ℕ → AccountIdx → Amount → Ts → ResOwner → Ledger → Option (Result LedgerError Handle × Ledger)
unfolding take_claim
reserve fuel account amount expires owner l = elim (owner_claim owner l) [
  | none ↦ some (err stale_owner, l)
  | some held ↦
      if is_some held
      then some (err owner_already_claimed, l)
      else elim (check_reservable l account amount) [
        | err e ↦ some (err e, l)
        | ok reserved ↦ take_claim fuel account amount expires owner reserved l
      ]
]

-- The claim that comes with a new owner.
abbrev pub with_owner :
    Handle
    → Option (Result LedgerError Handle × Ledger)
    → Option (Result LedgerError (Handle × Handle) × Ledger)
with_owner owner none = none
with_owner owner (some (ok claim, l)) = some (ok (owner, claim), l)
with_owner owner (some (err e, l)) = some (err e, l)

-- `Ledger::open_quote_reserving`.
unfoldable pub open_quote_reserving :
    ℕ → Quote → Amount → Ledger → Option (Result LedgerError (Handle × Handle) × Ledger)
open_quote_reserving fuel quote amount l = elim (check_reservable l quote.maker amount) [
  | err e ↦ some (err e, l)
  | ok reserved ↦
      if not (has_room l.quotes)
      then some (err (slab_exhausted quote_slab), l)
      else (if not (has_room l.reservations)
          then some (err (slab_exhausted reservation_slab), l)
          else (let (result, slab) = Slab.insert quote l.quotes in
              elim result [
                | err e ↦ some (err (slab_exhausted quote_slab), record l { quotes = slab })
                | ok h ↦ with_owner h (
                    take_claim fuel quote.maker amount quote.expires_at (quote_owner h) reserved
                      (record l { quotes = slab }))
              ]))
]

-- `Ledger::open_request_reserving`.
unfoldable pub open_request_reserving :
    ℕ → Request → Amount → Ledger → Option (Result LedgerError (Handle × Handle) × Ledger)
open_request_reserving fuel request amount l = elim (check_reservable l request.requester amount) [
  | err e ↦ some (err e, l)
  | ok reserved ↦
      if not (has_room l.requests)
      then some (err (slab_exhausted request_slab), l)
      else (if not (has_room l.reservations)
          then some (err (slab_exhausted reservation_slab), l)
          else (let (result, slab) = Slab.insert request l.requests in
              elim result [
                | err e ↦ some (err (slab_exhausted request_slab), record l { requests = slab })
                | ok h ↦ with_owner h (
                    take_claim fuel request.requester amount request.deadline (request_owner h)
                      reserved (record l { requests = slab }))
              ]))
]
