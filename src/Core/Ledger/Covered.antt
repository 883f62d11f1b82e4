-- ===== src/Core/Ledger/Covered.antt =====
-- crates/core/src/ledger.rs, `Ledger::reserve`: a claim is taken where the balance covers it.
use rfq_matching_settlement.Prelude.{
  ℕ, suc, ◌+◌, ◌≤◌, ◌≡◌, refl, ap, ◌∙◌, inl, inr, false, Option, none, some, List, arith, get_elem?,
  length, Option-cases, Bool-cases,
}
use rfq_matching_settlement.Prelude.Result.{Result, ok, err, Result-cases}
use rfq_matching_settlement.Core.Types.{Amount, Ts, AccountIdx}
use rfq_matching_settlement.Core.Slab
use rfq_matching_settlement.Core.Slab.{nil, Handle, Slab, SlabFull}
use rfq_matching_settlement.Core.Account.{MirroredBalance}
use rfq_matching_settlement.Core.Reservation.{ResOwner, Reservation, new_reserved, is_committed}
use rfq_matching_settlement.Core.Ledger.{
  Ledger, LedgerError, check_reservable, owner_claim, is_some, update_account, set_owner_claim,
  slab_exhausted, reservation_slab, stale_owner, owner_already_claimed,
}
use rfq_matching_settlement.Core.Ledger.Chains.{link_into_expiry_chain, splice}
use rfq_matching_settlement.Core.Ledger.Bare.{bare}
use rfq_matching_settlement.Core.Ledger.Claims.{claims-insert}
use rfq_matching_settlement.Core.Ledger.Tallies.{
  Tallied, reserved_by, committed_by, claims_same, account_same, reserved_by-shape,
  committed_by-shape, get_elem?-update_account, set_owner_claim_frame, account_found,
}
use rfq_matching_settlement.Core.Ledger.Release.{update_account_reservations}
use rfq_matching_settlement.Core.Ledger.Admission.{link_claim, finish_claim, take_claim, reserve}
use rfq_matching_settlement.Core.Ledger.Reserve.{Back, bare-splice, find_after_returns, Back-insert}

-- The latest expiry of an account's chain.
abbrev pub tail_of : Option MirroredBalance → ℕ
tail_of none = nil
tail_of (some e) = e.expiry_tail

-- Linking ends, and changes links alone.
link_returns :
    (a : AccountIdx) (i : ℕ) (t : Ts) (l : Ledger) (is : List ℕ)
    → Back l.reservations (tail_of (get_elem? l.accounts a)) is
    → (l' : Ledger) × (link_into_expiry_chain (suc (length is)) a i t l ≡ some l')
      × (bare l' ≡ bare l)
unfolding link_into_expiry_chain
link_returns a i t l is chain = go (get_elem? l.accounts a) refl
  where
    go :
        (o : Option MirroredBalance)
        → get_elem? l.accounts a ≡ o
        → (l' : Ledger) × (link_into_expiry_chain (suc (length is)) a i t l ≡ some l')
          × (bare l' ≡ bare l)
    go none e = (l, rw (link_into_expiry_chain, e) refl, refl)
    go (some b) e =
        let here : Back l.reservations b.expiry_tail is = rw (← ap tail_of e) chain in
        let (after, q) = find_after_returns l.reservations t b.expiry_tail is here in
        (splice after a i l, rw (link_into_expiry_chain, e, q) refl, bare-splice after a i l)

check_reservable_ok :
    (l : Ledger) (a : AccountIdx) (x : Amount) {t : Amount}
    → check_reservable l a x ≡ ok t
    → (b : MirroredBalance) × (get_elem? l.accounts a ≡ some b)
      × (b.reserved + b.committed + x ≤ b.free)
      × (t ≡ b.reserved + x)
unfolding check_reservable
check_reservable_ok l a x h = elim (Option-cases (get_elem? l.accounts a)) [
  | inl e ↦ absurd (ground (arith, e, h))
  | inr (b, e) ↦ (b, e, ground (arith, e, h), ground (arith, e, h))
]

-- A slab that refuses is as it was.
pub insert_refused :
    (s : Slab Reservation) (v : Reservation) {e : SlabFull} {s' : Slab Reservation}
    → Slab.insert v s ≡ (err e, s')
    → s' ≡ s
unfolding Slab.insert
insert_refused s v h = elim (Option-cases (get_elem? s.slots s.free_head)) [
  | inl q ↦ ground (arith, q, h)
  | inr (slot, q) ↦ ground (arith, q, h)
]

-- What an accepted claim does to its account: the balance covered it with all other claims, the
-- reserved total grows by it, and nothing else of the balance changes.
pub record IsAdmitted (a : AccountIdx) (x : Amount) (l l' : Ledger) : Type 0 where
  pub before : MirroredBalance
  pub after : MirroredBalance
  pub known : get_elem? l.accounts a ≡ some before
  pub now : get_elem? l'.accounts a ≡ some after
  pub covered : before.reserved + before.committed + x ≤ before.free
  pub reserved : after.reserved ≡ before.reserved + x
  pub others : (after.free ≡ before.free) × (after.committed ≡ before.committed)

-- What a reservation does: it refuses and changes nothing, or it takes a covered claim.
pub data Reserves (a : AccountIdx) (x : Amount) (l : Ledger)
    (r : Result LedgerError Handle × Ledger) : Type 0 where
  declines : (e : LedgerError) → r ≡ (err e, l) → Reserves a x l r
  admits :
      (h : Handle) (l' : Ledger)
      → r ≡ (ok h, l')
      → IsAdmitted a x l l'
      → Tallied l'
      → Reserves a x l r

pub added-Tallied :
    (v : Reservation) (h : Handle) (s : Slab Reservation) (b : MirroredBalance) (total : Amount)
    (o : ResOwner) (l l1 : Ledger)
    → Tallied l
    → Slab.insert v l.reservations ≡ (ok h, s)
    → is_committed v ≡ false
    → get_elem? l.accounts v.account ≡ some b
    → total ≡ b.reserved + v.amount
    → bare l1 ≡ bare (record l { reservations = s })
    → Tallied (
        set_owner_claim o
          (some h)
          (update_account v.account (λ e. record e { reserved = total }) l1))
added-Tallied v h s b total o l l1 t inserted open_claim known sum same a e found =
    let l0 : Ledger = record l { reservations = s } in
    let write : MirroredBalance → MirroredBalance =
      λ (e : MirroredBalance). record e { reserved = total } in
    let l2 = update_account v.account write l1 in
    let frame = set_owner_claim_frame o (some h) l2 in
    let here = ap (λ xs. get_elem? xs a) frame.0 in
    let read = get_elem?-update_account v.account a write l1 in
    elim (Option-cases (get_elem? l.accounts a)) [
      | inl q ↦ absurd (ground (arith, q, found, here, read, account_same l0 l1 a same))
      | inr (c, q) ↦
          let (d, at, f, r, m) = account_found l0 l1 a c same q in
          rw (frame.1, update_account_reservations v.account write l1)
            (ground (
              arith,
              q,
              at,
              found,
              here,
              read,
              known,
              sum,
              open_claim,
              r,
              m,
              t a c q,
              ap (get_elem? l.accounts),
              claims_same (reserved_by a) l0 l1 (reserved_by-shape a) same,
              claims_same (committed_by a) l0 l1 (committed_by-shape a) same,
              claims-insert (reserved_by a) l.reservations v inserted,
              claims-insert (committed_by a) l.reservations v inserted,
            ))
    ]

take_claim-Reserves :
    (a : AccountIdx) (x : Amount) (t : Ts) (o : ResOwner) (total : Amount) (b : MirroredBalance)
    (l : Ledger) (is : List ℕ)
    → Tallied l
    → Back l.reservations (tail_of (get_elem? l.accounts a)) is
    → get_elem? l.accounts a ≡ some b
    → b.reserved + b.committed + x ≤ b.free
    → total ≡ b.reserved + x
    → (out : Result LedgerError Handle × Ledger) × (take_claim (suc (length is)) a x t o total l
        ≡ some out)
      × Reserves a x l out
unfolding take_claim link_claim
take_claim-Reserves a x t o total b l is tallied chain known covers sum =
    go (Slab.insert v l.reservations).0 (Slab.insert v l.reservations).1 refl
  where
    v : Reservation
    v = new_reserved a x o t

    finish : Result SlabFull Handle × Slab Reservation → Option (Result LedgerError Handle × Ledger)
    finish = finish_claim (suc (length is)) a t o total l

    go :
        (r : Result SlabFull Handle) (s : Slab Reservation)
        → Slab.insert v l.reservations ≡ (r, s)
        → (out : Result LedgerError Handle × Ledger) × (take_claim (suc (length is)) a x t o total l
            ≡ some out)
          × Reserves a x l out
    go (err e) s q =
        let same : record l { reservations = s } ≡ l =
          ap (λ (p : Slab Reservation). record l { reservations = p })
            (insert_refused l.reservations v q) in
        (
          (err (slab_exhausted reservation_slab), record l { reservations = s }),
          ap finish q,
          declines (slab_exhausted reservation_slab) (rw same refl),
        )
    go (ok h) s q =
        let l0 : Ledger = record l { reservations = s } in
        let (l1, linked, same) =
          link_returns a h.index t l0 is
            (Back-insert l.reservations s v h (tail_of (get_elem? l.accounts a)) is q chain) in
        let write : MirroredBalance → MirroredBalance =
          λ (e : MirroredBalance). record e { reserved = total } in
        let l2 = update_account a write l1 in
        let l3 = set_owner_claim o (some h) l2 in
        let (c, at, f, r, m) = account_found l0 l1 a b same known in
        let read =
          ap (λ xs. get_elem? xs a) (set_owner_claim_frame o (some h) l2).0
          ∙ get_elem?-update_account a a write l1 in
        (
          (ok h, l3),
          ap finish q ∙ rw (finish_claim, link_claim, linked) refl,
          admits h l3 refl
              (record {
                before = b;
                after = write c;
                known = known;
                now = ground (arith, read, at);
                covered = covers;
                reserved = sum;
                others = (f, m);
              })
              (added-Tallied v h s b total o l l1 tallied q refl known sum same),
        )

-- Where the totals of the ledger are the sums of its claims, a reservation on an account, with
-- fuel for one round more than its expiry chain is long, ends in one of two ways. It is refused,
-- and the ledger is as it was. Or the mirrored balance covers the claim together with all that is
-- reserved and committed, the reserved total grows by the amount, the rest of the balance stays,
-- and all totals are again the sums of the claims.
pub reserve-Reserves :
    (a : AccountIdx) (x : Amount) (t : Ts) (o : ResOwner) (l : Ledger) (is : List ℕ)
    → Tallied l
    → Back l.reservations (tail_of (get_elem? l.accounts a)) is
    → (out : Result LedgerError Handle × Ledger) × (reserve (suc (length is)) a x t o l ≡ some out)
      × Reserves a x l out
unfolding reserve
reserve-Reserves a x t o l is tallied chain = elim (Option-cases (owner_claim o l)) [
  | inl e ↦ ((err stale_owner, l), rw (reserve, e) refl, declines stale_owner refl)
  | inr (held, e) ↦ elim (Bool-cases (is_some held)) [
    | inl h ↦ (
      (err owner_already_claimed, l),
      rw (reserve, e, h) refl,
      declines owner_already_claimed refl,
    )
    | inr h ↦ elim (Result-cases (check_reservable l a x)) [
      | inr (c, q) ↦ ((err c, l), rw (reserve, e, h, q) refl, declines c refl)
      | inl (total, q) ↦
          let (b, known, covers, sum) = check_reservable_ok l a x q in
          let (out, ran, result) =
            take_claim-Reserves a x t o total b l is tallied chain known covers sum in
          (out, rw (reserve, e, h, q) ran, result)
    ]
  ]
]
