-- ===== src/Core/Ledger/Sound/Admission.antt =====
-- crates/core/src/ledger.rs: the admission of a claim, with or without its owner, and the mirror
-- update keep the books in order.
use rfq_matching_settlement.Prelude.{
  ℕ, ◌+◌, ◌≤◌, ◌≡◌, refl, ap, ◌∙◌, sym, inl, inr, false, Option, none, some, arith, get_elem?,
  get_elem?-lt, get_elem?-set_self, get_elem?-set_ne, length, length-set, Option-cases, Bool-cases,
  set, u64_max,
}
use native.Mathlib.Decide.{ℕ_discrete}
use rfq_matching_settlement.Prelude.Result.{Result, ok, err, Result-cases}
use rfq_matching_settlement.Prelude.Process.Post.{Post}
use rfq_matching_settlement.Core.Types.{Amount, AccountIdx, Ts}
use rfq_matching_settlement.Core.Slab
use rfq_matching_settlement.Core.Slab.{Handle, Slab, SlabFull, has_room}
use rfq_matching_settlement.Core.Account.{MirroredBalance}
use rfq_matching_settlement.Core.Reservation.{
  ResOwner, quote_owner, request_owner, Reservation, new_reserved, is_committed,
}
use rfq_matching_settlement.Core.Quote.{Quote}
use rfq_matching_settlement.Core.Request.{Request}
use rfq_matching_settlement.Core.Ledger.{
  Ledger, LedgerError, update_account, set_owner_claim, check_reservable, apply_mirror_update,
}
use rfq_matching_settlement.Core.Ledger.Chains.{find_after, link_into_expiry_chain}
use rfq_matching_settlement.Core.Ledger.Bare.{bare}
use rfq_matching_settlement.Core.Ledger.Claims.{claims-insert}
use rfq_matching_settlement.Core.Ledger.Reserve.{bare-splice}
use rfq_matching_settlement.Core.Ledger.Covered.{added-Tallied, insert_refused}
use rfq_matching_settlement.Core.Ledger.Admission.{
  link_claim, finish_claim, take_claim, with_owner, open_quote_reserving, open_request_reserving,
}
use rfq_matching_settlement.Core.Ledger.Sound.{
  foreign, owed_by, owed_sum, IsSound, foreign-IsWeight, owed_by-IsWeight, Shrinks, Shrinks-trans,
  Shrinks-bare, Shrinks-update_account, Shrinks-set_owner_claim,
}

-- Wherever an operation on fuel ends, the books are in order.
abbrev pub SoundBy : {E A : Type 0} → Option (Result E A × Ledger) → Type 0
SoundBy = Post (λ _ m. IsSound m)

link_bare :
    (fuel : ℕ) (a : AccountIdx) (i : ℕ) (t : Ts) (l : Ledger) {m : Ledger}
    → link_into_expiry_chain fuel a i t l ≡ some m
    → bare m ≡ bare l
unfolding link_into_expiry_chain
link_bare fuel a i t l e = elim (Option-cases (get_elem? l.accounts a)) [
  | inl q ↦ ground (arith, q, e)
  | inr (b, q) ↦ elim (Option-cases (find_after fuel l.reservations t b.expiry_tail)) [
    | inl r ↦ absurd (ground (arith, q, r, e))
    | inr (after, r) ↦ ground (arith, q, r, e, bare-splice after a i l)
  ]
]

check_reservable_fits :
    (l : Ledger) (a : AccountIdx) (x : Amount) {t : Amount}
    → check_reservable l a x ≡ ok t
    → (b : MirroredBalance) × (get_elem? l.accounts a ≡ some b)
      × (b.reserved + b.committed + x ≤ u64_max)
      × (t ≡ b.reserved + x)
unfolding check_reservable
check_reservable_fits l a x h = elim (Option-cases (get_elem? l.accounts a)) [
  | inl e ↦ absurd (ground (arith, e, h))
  | inr (b, e) ↦ (b, e, ground (arith, e, h), ground (arith, e, h))
]

-- The books once a covered claim is in the slab, linked and named at its owner.
claimed-IsSound :
    (v : Reservation) (h : Handle) (s : Slab Reservation) (b : MirroredBalance) (o : ResOwner)
    (l l1 : Ledger)
    → IsSound l
    → Slab.insert v l.reservations ≡ (ok h, s)
    → is_committed v ≡ false
    → get_elem? l.accounts v.account ≡ some b
    → b.reserved + b.committed + v.amount ≤ u64_max
    → bare l1 ≡ bare (record l { reservations = s })
    → IsSound (
        set_owner_claim o
          (some h)
          (update_account v.account (λ e. record e { reserved = b.reserved + v.amount }) l1))
claimed-IsSound v h s b o l l1 sound inserted open_claim known fits same =
    let l0 : Ledger = record l { reservations = s } in
    let f : MirroredBalance → MirroredBalance =
      λ (e : MirroredBalance). record e { reserved = b.reserved + v.amount } in
    let l2 = update_account v.account f l1 in
    let l3 = set_owner_claim o (some h) l2 in
    let k : Shrinks l0 l3 = Shrinks-trans (Shrinks-bare l0 l1 same) (
      Shrinks-trans (Shrinks-update_account v.account f l1)
        (Shrinks-set_owner_claim o (some h) l2)) in
    let n = length l.accounts in
    let fewer = k.less (foreign n) (foreign-IsWeight n) in
    let grown = claims-insert (foreign n) l.reservations v inserted in
    let inside = get_elem?-lt l.accounts v.account known in
    record {
      tallied =
          added-Tallied v h s b (b.reserved + v.amount) o l l1 sound.tallied inserted open_claim
            known refl same;
      owned = rw k.size (ground (arith, fewer, grown, inside, sound.owned));
      bounded = λ a.
          let (x, y) = sound.tallied v.account b known in
          ground (
            arith,
            k.less (owed_by a) (owed_by-IsWeight a),
            claims-insert (owed_by a) l.reservations v inserted,
            sound.bounded a,
            x,
            y,
            fits,
            owed_sum v.account l.reservations,
          );
    }

take_claim-IsSound :
    (fuel : ℕ) (a : AccountIdx) (x : Amount) (t : Ts) (o : ResOwner) (b : MirroredBalance)
    (l : Ledger)
    → IsSound l
    → get_elem? l.accounts a ≡ some b
    → b.reserved + b.committed + x ≤ u64_max
    → SoundBy (take_claim fuel a x t o (b.reserved + x) l)
unfolding take_claim link_claim
take_claim-IsSound fuel a x t o b l sound known fits =
    go (Slab.insert v l.reservations).0 (Slab.insert v l.reservations).1 refl
  where
    v : Reservation
    v = new_reserved a x o t

    finish : Result SlabFull Handle × Slab Reservation → Option (Result LedgerError Handle × Ledger)
    finish = finish_claim fuel a t o (b.reserved + x) l

    go :
        (r : Result SlabFull Handle) (s : Slab Reservation)
        → Slab.insert v l.reservations ≡ (r, s)
        → SoundBy (finish (r, s))
    go (err e) s q =
        let same : s ≡ l.reservations = insert_refused l.reservations v q in rw same sound
    go (ok h) s q =
        let l0 : Ledger = record l { reservations = s } in
        elim (Option-cases (link_into_expiry_chain fuel a h.index t l0)) [
          | inl e ↦ rw (finish_claim, link_claim, e) tt
          | inr (l1, e) ↦
              rw (finish_claim, link_claim, e)
                (claimed-IsSound v h s b o l l1 sound q refl known fits
                  (link_bare fuel a h.index t l0 e))
        ]

with_owner-SoundBy :
    (h : Handle) (o : Option (Result LedgerError Handle × Ledger))
    → SoundBy o
    → SoundBy (with_owner h o)
with_owner-SoundBy h none k = tt
with_owner-SoundBy h (some (ok c, m)) k = k
with_owner-SoundBy h (some (err e, m)) k = k

pub same-IsSound :
    {l m : Ledger}
    → m.accounts ≡ l.accounts
    → m.reservations ≡ l.reservations
    → IsSound l
    → IsSound m
same-IsSound {l} {m} a r s = record {
  tallied = λ k e known. rw r (s.tallied k e (sym (ap (λ xs. get_elem? xs k) a) ∙ known));
  owned = rw (a, r) s.owned;
  bounded = λ k. rw r (s.bounded k);
}

pub open_quote-IsSound :
    (fuel : ℕ) (x : Quote) (amount : Amount) (l : Ledger)
    → IsSound l
    → SoundBy (open_quote_reserving fuel x amount l)
unfolding open_quote_reserving
open_quote-IsSound fuel x amount l s = elim (Result-cases (check_reservable l x.maker amount)) [
  | inr (e, q) ↦ rw (open_quote_reserving, q) s
  | inl (total, q) ↦ elim (Bool-cases (has_room l.quotes)) [
    | inr r ↦ rw (open_quote_reserving, q, r) s
    | inl r ↦ elim (Bool-cases (has_room l.reservations)) [
      | inr k ↦ rw (open_quote_reserving, q, r, k) s
      | inl k ↦
          let m : Ledger = record l { quotes = (Slab.insert x l.quotes).1 } in
          let sound : IsSound m = same-IsSound refl refl s in
          elim (Result-cases (Slab.insert x l.quotes).0) [
            | inr (e, i) ↦ rw (open_quote_reserving, q, r, k, i) sound
            | inl (h, i) ↦
                let (b, known, fits, sum) = check_reservable_fits l x.maker amount q in
                rw (open_quote_reserving, q, r, k, i, sum)
                  (with_owner-SoundBy h
                    (take_claim fuel x.maker amount x.expires_at (quote_owner h)
                      (b.reserved + amount) m)
                    (take_claim-IsSound fuel x.maker amount x.expires_at (quote_owner h) b m sound
                      known fits))
          ]
    ]
  ]
]

pub open_request-IsSound :
    (fuel : ℕ) (x : Request) (amount : Amount) (l : Ledger)
    → IsSound l
    → SoundBy (open_request_reserving fuel x amount l)
unfolding open_request_reserving
open_request-IsSound fuel x amount l s =
    elim (Result-cases (check_reservable l x.requester amount)) [
      | inr (e, q) ↦ rw (open_request_reserving, q) s
      | inl (total, q) ↦ elim (Bool-cases (has_room l.requests)) [
        | inr r ↦ rw (open_request_reserving, q, r) s
        | inl r ↦ elim (Bool-cases (has_room l.reservations)) [
          | inr k ↦ rw (open_request_reserving, q, r, k) s
          | inl k ↦
              let m : Ledger = record l { requests = (Slab.insert x l.requests).1 } in
              let sound : IsSound m = same-IsSound refl refl s in
              elim (Result-cases (Slab.insert x l.requests).0) [
                | inr (e, i) ↦ rw (open_request_reserving, q, r, k, i) sound
                | inl (h, i) ↦
                    let (b, known, fits, sum) = check_reservable_fits l x.requester amount q in
                    rw (open_request_reserving, q, r, k, i, sum)
                      (with_owner-SoundBy h
                        (take_claim fuel x.requester amount x.deadline (request_owner h)
                          (b.reserved + amount) m)
                        (take_claim-IsSound fuel x.requester amount x.deadline (request_owner h) b m
                          sound known fits))
              ]
        ]
      ]
    ]

-- A mirror update moves no claim.
pub mirror-IsSound :
    (a : AccountIdx) (x : Amount) (l : Ledger) → IsSound l → IsSound (apply_mirror_update a x l).1
unfolding apply_mirror_update
mirror-IsSound a x l s = elim (Option-cases (get_elem? l.accounts a)) [
  | inl e ↦ rw (apply_mirror_update, e) s
  | inr (b, e) ↦
      let written : MirroredBalance = record b { free = x } in
      rw (apply_mirror_update, e)
        (record {
          tallied = λ k c known. elim (ℕ_discrete a k) [
            | yes y ↦
                let here : get_elem? l.accounts k ≡ some b =
                  ap (get_elem? l.accounts) (sym y) ∙ e in
                let (p, q) = s.tallied k b here in
                let wrote = get_elem?-set_self l.accounts a written (get_elem?-lt l.accounts a e) in
                let same : c ≡ written =
                  ground (arith, known, wrote, ap (get_elem? (set l.accounts a written)) y) in
                rw same (p, q)
            | no n ↦ s.tallied k c (sym (get_elem?-set_ne l.accounts a k written n) ∙ known)
          ];
          owned = rw (length-set l.accounts a written) s.owned;
          bounded = s.bounded;
        })
]
