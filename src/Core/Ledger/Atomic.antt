-- ===== src/Core/Ledger/Atomic.antt =====
-- crates/core/src/ledger.rs, `open_quote_reserving` and `open_request_reserving`: a refusal changes
-- nothing.
use rfq_matching_settlement.Prelude.{
  ℕ, ◌≡◌, ◌≢◌, sym, ap, ◌∙◌, inl, inr, true, some, List, arith, Option-cases, Bool-cases,
}
use rfq_matching_settlement.Prelude.Result.{Result, ok, err, Result-cases}
use rfq_matching_settlement.Core.Types.{Amount, Ts, AccountIdx}
use rfq_matching_settlement.Core.Slab
use rfq_matching_settlement.Core.Slab.{nil, Handle, Slab, SlabFull, has_room}
use rfq_matching_settlement.Core.Slab.Free.{IsWell, full, fills, insert-Inserts}
use rfq_matching_settlement.Core.Reservation.{ResOwner, quote_owner, request_owner, new_reserved}
use rfq_matching_settlement.Core.Quote.{Quote}
use rfq_matching_settlement.Core.Request.{Request}
use rfq_matching_settlement.Core.Ledger.{Ledger, LedgerError, check_reservable}
use rfq_matching_settlement.Core.Ledger.Admission.{
  link_claim, finish_claim, take_claim, with_owner, open_quote_reserving, open_request_reserving,
}

-- A well-formed slab with room takes a value.
insert_room :
    {A : Type 0} (v : A) (s : Slab A) (fs : List ℕ)
    → IsWell s fs
    → has_room s ≡ true
    → (h : Handle) × (s' : Slab A) × (Slab.insert v s ≡ (ok h, s'))
insert_room v s fs w room = elim (insert-Inserts v s fs w) [
  | full none_free q ↦ absurd (ground (arith, w.head, none_free, room))
  | fills i rest slot split at vacant_at q ↦ (_, _, q)
]

-- A claim that finds room is not refused.
take_claim_room :
    (fuel : ℕ) (a : AccountIdx) (x : Amount) (t : Ts) (o : ResOwner) (total : Amount) (l : Ledger)
    (gs : List ℕ) (h : Handle) {e : LedgerError} {l' : Ledger}
    → IsWell l.reservations gs
    → has_room l.reservations ≡ true
    → with_owner h (take_claim fuel a x t o total l) ≢ some (err e, l')
unfolding take_claim
take_claim_room fuel a x t o total l gs h {e} {l'} w room failed =
    let v = new_reserved a x o t in
    let (claim, s, q) = insert_room v l.reservations gs w room in
    let same : take_claim fuel a x t o total l ≡ finish_claim fuel a t o total l (ok claim, s) =
      ap (finish_claim fuel a t o total l) q in
    let failed' : with_owner h (finish_claim fuel a t o total l (ok claim, s)) ≡ some (err e, l') =
      sym (ap (with_owner h) same) ∙ failed in
    elim (Option-cases (link_claim fuel a claim t o total (record l { reservations = s }))) [
      | inl n ↦ ground (arith, n, failed')
      | inr (m, n) ↦ ground (arith, n, failed')
    ]

-- In a ledger whose slabs of quotes and of claims are well formed, opening a quote with its claim is
-- all or nothing: where it is refused, the ledger is as it was.
pub open_quote-atomic :
    (fuel : ℕ) (x : Quote) (amount : Amount) (l : Ledger) (fs gs : List ℕ) {e : LedgerError}
    {l' : Ledger}
    → IsWell l.quotes fs
    → IsWell l.reservations gs
    → open_quote_reserving fuel x amount l ≡ some (err e, l')
    → l' ≡ l
unfolding open_quote_reserving
open_quote-atomic fuel x amount l fs gs {e} {l'} w v h =
    elim (Result-cases (check_reservable l x.maker amount)) [
      | inr (c, q) ↦ ground (arith, q, h)
      | inl (total, q) ↦ elim (Bool-cases (has_room l.quotes)) [
        | inr r ↦ ground (arith, q, r, h)
        | inl r ↦ elim (Bool-cases (has_room l.reservations)) [
          | inr k ↦ ground (arith, q, r, k, h)
          | inl k ↦
              let (owner, s, inserted) = insert_room x l.quotes fs w r in
              let l1 : Ledger = record l { quotes = s } in
              let ran : open_quote_reserving fuel x amount l
                  ≡ with_owner owner
                      (take_claim fuel x.maker amount x.expires_at (quote_owner owner) total l1) =
                rw (open_quote_reserving, q, r, k, inserted)
                  (ap
                    (λ (t : Slab Quote). with_owner owner (
                      take_claim fuel x.maker amount x.expires_at (quote_owner owner) total
                        (record l { quotes = t })))
                    (ap (λ (p : Result SlabFull Handle × Slab Quote). p.1) inserted)) in
              absurd (
                take_claim_room fuel x.maker amount x.expires_at (quote_owner owner) total l1 gs
                  owner v k (sym ran ∙ h))
        ]
      ]
    ]

-- In a ledger whose slabs of requests and of claims are well formed, opening a request with its claim is
-- all or nothing: where it is refused, the ledger is as it was.
pub open_request-atomic :
    (fuel : ℕ) (x : Request) (amount : Amount) (l : Ledger) (fs gs : List ℕ) {e : LedgerError}
    {l' : Ledger}
    → IsWell l.requests fs
    → IsWell l.reservations gs
    → open_request_reserving fuel x amount l ≡ some (err e, l')
    → l' ≡ l
unfolding open_request_reserving
open_request-atomic fuel x amount l fs gs {e} {l'} w v h =
    elim (Result-cases (check_reservable l x.requester amount)) [
      | inr (c, q) ↦ ground (arith, q, h)
      | inl (total, q) ↦ elim (Bool-cases (has_room l.requests)) [
        | inr r ↦ ground (arith, q, r, h)
        | inl r ↦ elim (Bool-cases (has_room l.reservations)) [
          | inr k ↦ ground (arith, q, r, k, h)
          | inl k ↦
              let (owner, s, inserted) = insert_room x l.requests fs w r in
              let l1 : Ledger = record l { requests = s } in
              let ran : open_request_reserving fuel x amount l
                  ≡ with_owner owner (
                      take_claim fuel x.requester amount x.deadline (request_owner owner) total
                        l1) =
                rw (open_request_reserving, q, r, k, inserted)
                  (ap
                    (λ (t : Slab Request). with_owner owner (
                      take_claim fuel x.requester amount x.deadline (request_owner owner) total
                        (record l { requests = t })))
                    (ap (λ (p : Result SlabFull Handle × Slab Request). p.1) inserted)) in
              absurd (
                take_claim_room fuel x.requester amount x.deadline (request_owner owner) total l1 gs
                  owner v k (sym ran ∙ h))
        ]
      ]
    ]
