-- ===== src/Core/Engine/Frame/Admission.antt =====
-- crates/core/src/ledger.rs: normalisation and the admission of claims keep the contracts and the
-- states of requests.
use rfq_matching_settlement.Prelude.{
  ℕ, zero, suc, ◌≡◌, refl, ap, inl, inr, Option, none, some, arith, get_elem?, get_elem?-set_ne,
  Option-cases, Bool-cases, ◌==◌, if◌then◌else◌, saturating_add, u32_max,
}
use native.Mathlib.Decide.{ℕ_discrete}
use rfq_matching_settlement.Prelude.Result.{Result, ok, err, Result-cases}
use rfq_matching_settlement.Prelude.Process.Post.{Post}
use rfq_matching_settlement.Core.Types.{Amount, AccountIdx, Ts}
use rfq_matching_settlement.Core.Slab
use rfq_matching_settlement.Core.Slab.{nil, Handle, Slab, Slot, occupied, SlabFull, has_room}
use rfq_matching_settlement.Core.Account.{MirroredBalance}
use rfq_matching_settlement.Core.Reservation.{
  ResOwner, quote_owner, request_owner, Reservation, next_of, set_prev, set_next, is_expired_at,
  new_reserved,
}
use rfq_matching_settlement.Core.Quote.{Quote}
use rfq_matching_settlement.Core.Request.{Request}
use rfq_matching_settlement.Core.Ledger.{Ledger, LedgerError, update_account, check_reservable}
use rfq_matching_settlement.Core.Ledger.Chains.{
  reservation_at, touch, splice, splice_after, splice_at_head, after_of, head_of, find_after,
  link_into_expiry_chain,
}
use rfq_matching_settlement.Core.Ledger.Admission.{
  link_claim, finish_claim, take_claim, with_owner, open_quote_reserving, open_request_reserving,
}
use rfq_matching_settlement.Core.Ledger.Phase.{reclaim, reclaim_from, release_expired}
use rfq_matching_settlement.Core.Engine.Frame.{
  state_at, Keeps, Keeps-refl, Keeps-trans, Keeps-same, Keeps-update_account, Keeps-touch,
  Keeps-set_owner_claim, Keeps-reservations, Keeps-if,
}
use rfq_matching_settlement.Core.Engine.Frame.Claims.{Keeps-reclaim}

-- Wherever an operation on fuel ends, it has kept them.
abbrev pub KeptIn : Ledger → Option Ledger → Type 0
KeptIn l none = Unit
KeptIn l (some m) = Keeps l m

abbrev pub KeptBy : {E A : Type 0} → Ledger → Option (Result E A × Ledger) → Type 0
KeptBy l = Post (λ _ m. Keeps l m)

pub KeptBy-trans :
    {E A : Type 0} {l m : Ledger} (o : Option (Result E A × Ledger))
    → Keeps l m
    → KeptBy m o
    → KeptBy l o
KeptBy-trans none k n = tt
KeptBy-trans (some (r, m')) k n = Keeps-trans k n

Keeps-splice :
    (after : Option ℕ) (a : AccountIdx) (i : ℕ) (l : Ledger) → Keeps l (splice after a i l)
unfolding splice_at_head splice_after
Keeps-splice none a i l =
    let head = head_of (get_elem? l.accounts a) in
    let l1 = touch i (λ r. set_next head (set_prev nil r)) l in
    let l2 =
      if head == nil
      then update_account a (λ e. record e { expiry_tail = i }) l1
      else touch head (set_prev i) l1 in
    Keeps-trans (Keeps-touch i (λ r. set_next head (set_prev nil r)) l) (
      Keeps-trans
        (Keeps-if (head == nil) (Keeps-update_account a (λ e. record e { expiry_tail = i }) l1)
          (Keeps-touch head (set_prev i) l1))
        (Keeps-update_account a (λ e. record e { expiry_head = i }) l2))
Keeps-splice (some after) a i l =
    let next = after_of (reservation_at l.reservations after) in
    let l1 = touch after (set_next i) l in
    let l2 = touch i (λ r. set_next next (set_prev after r)) l1 in
    Keeps-trans (Keeps-touch after (set_next i) l) (
      Keeps-trans (Keeps-touch i (λ r. set_next next (set_prev after r)) l1) (
        Keeps-if (next == nil) (Keeps-update_account a (λ e. record e { expiry_tail = i }) l2)
          (Keeps-touch next (set_prev i) l2)))

Keeps-link :
    (fuel : ℕ) (a : AccountIdx) (i : ℕ) (t : Ts) (l : Ledger)
    → KeptIn l (link_into_expiry_chain fuel a i t l)
unfolding link_into_expiry_chain
Keeps-link fuel a i t l = elim (Option-cases (get_elem? l.accounts a)) [
  | inl e ↦ rw (link_into_expiry_chain, e) (Keeps-refl l)
  | inr (b, e) ↦ elim (Option-cases (find_after fuel l.reservations t b.expiry_tail)) [
    | inl q ↦ rw (link_into_expiry_chain, e, q) tt
    | inr (after, q) ↦ rw (link_into_expiry_chain, e, q) (Keeps-splice after a i l)
  ]
]

KeptIn-trans : {l m : Ledger} (o : Option Ledger) → Keeps l m → KeptIn m o → KeptIn l o
KeptIn-trans none k n = tt
KeptIn-trans (some m') k n = Keeps-trans k n

Keeps-link_claim :
    (fuel : ℕ) (a : AccountIdx) (c : Handle) (t : Ts) (o : ResOwner) (total : Amount) (l : Ledger)
    → KeptIn l (link_claim fuel a c t o total l)
unfolding link_claim
Keeps-link_claim fuel a c t o total l =
    let kept = Keeps-link fuel a c.index t l in
    elim (Option-cases (link_into_expiry_chain fuel a c.index t l)) [
      | inl e ↦ rw (link_claim, e) tt
      | inr (l1, e) ↦
          let k : Keeps l l1 = rw e at kept in
          let f : MirroredBalance → MirroredBalance =
            λ (b : MirroredBalance). record b { reserved = total } in
          rw (link_claim, e)
            (Keeps-trans k (
              Keeps-trans (Keeps-update_account a f l1)
                (Keeps-set_owner_claim o (some c) (update_account a f l1))))
    ]

Keeps-finish_claim :
    (fuel : ℕ) (a : AccountIdx) (t : Ts) (o : ResOwner) (total : Amount) (l : Ledger)
    (p : Result SlabFull Handle × Slab Reservation)
    → KeptBy l (finish_claim fuel a t o total l p)
Keeps-finish_claim fuel a t o total l (err e, s) = Keeps-reservations s l
Keeps-finish_claim fuel a t o total l (ok c, s) =
    let m : Ledger = record l { reservations = s } in
    let kept = Keeps-link_claim fuel a c t o total m in
    elim (Option-cases (link_claim fuel a c t o total m)) [
      | inl e ↦ rw (finish_claim, e) tt
      | inr (l1, e) ↦
          let k : Keeps m l1 = rw e at kept in
          rw (finish_claim, e) (Keeps-trans (Keeps-reservations s l) k)
    ]

Keeps-take_claim :
    (fuel : ℕ) (a : AccountIdx) (x : Amount) (t : Ts) (o : ResOwner) (total : Amount) (l : Ledger)
    → KeptBy l (take_claim fuel a x t o total l)
unfolding take_claim
Keeps-take_claim fuel a x t o total l =
    Keeps-finish_claim fuel a t o total l (Slab.insert (new_reserved a x o t) l.reservations)

Keeps-with_owner :
    (h : Handle) (l : Ledger) (o : Option (Result LedgerError Handle × Ledger))
    → KeptBy l o
    → KeptBy l (with_owner h o)
Keeps-with_owner h l none k = tt
Keeps-with_owner h l (some (ok c, m)) k = k
Keeps-with_owner h l (some (err e, m)) k = k

pub Keeps-open_quote :
    (fuel : ℕ) (x : Quote) (amount : Amount) (l : Ledger)
    → KeptBy l (open_quote_reserving fuel x amount l)
unfolding open_quote_reserving
Keeps-open_quote fuel x amount l = elim (Result-cases (check_reservable l x.maker amount)) [
  | inr (e, q) ↦ rw (open_quote_reserving, q) (Keeps-refl l)
  | inl (total, q) ↦ elim (Bool-cases (has_room l.quotes)) [
    | inr r ↦ rw (open_quote_reserving, q, r) (Keeps-refl l)
    | inl r ↦ elim (Bool-cases (has_room l.reservations)) [
      | inr k ↦ rw (open_quote_reserving, q, r, k) (Keeps-refl l)
      | inl k ↦
          let m : Ledger = record l { quotes = (Slab.insert x l.quotes).1 } in
          let here : Keeps l m = Keeps-same l m refl refl in
          elim (Result-cases (Slab.insert x l.quotes).0) [
            | inr (e, i) ↦ rw (open_quote_reserving, q, r, k, i) here
            | inl (h, i) ↦
                rw (open_quote_reserving, q, r, k, i)
                  (Keeps-with_owner h l
                    (take_claim fuel x.maker amount x.expires_at (quote_owner h) total m)
                    (KeptBy-trans
                      (take_claim fuel x.maker amount x.expires_at (quote_owner h) total m) here
                      (Keeps-take_claim fuel x.maker amount x.expires_at (quote_owner h) total m)))
          ]
    ]
  ]
]

-- What a handle resolves to is still there once a further value is in.
get-insert_kept :
    {A : Type 0} (w : A) (s : Slab A) (h : Handle) {v : A}
    → Slab.get s h ≡ some v
    → Slab.get (Slab.insert w s).1 h ≡ some v
unfolding Slab.insert Slab.get
get-insert_kept {A} w s h at = elim (Option-cases (get_elem? s.slots s.free_head)) [
  | inl q ↦ ground (arith, q, at)
  | inr (slot, q) ↦ elim (ℕ_discrete s.free_head h.index) [
    | yes same ↦ ground (arith, q, at, ap (get_elem? s.slots) same)
    | no n ↦
        let written : Slot A = record slot { state = occupied w } in
        ground (arith, q, at, get_elem?-set_ne s.slots s.free_head h.index written n)
  ]
]

Keeps-insert_request :
    (x : Request) (l : Ledger) → Keeps l (record l { requests = (Slab.insert x l.requests).1 })
unfolding state_at
Keeps-insert_request x l = record {
  contracts = refl;
  states = λ h s e. elim (Option-cases (Slab.get l.requests h)) [
    | inl q ↦ ground (arith, q, e)
    | inr (r, q) ↦ ground (arith, q, e, get-insert_kept x l.requests h q)
  ];
}

pub Keeps-open_request :
    (fuel : ℕ) (x : Request) (amount : Amount) (l : Ledger)
    → KeptBy l (open_request_reserving fuel x amount l)
unfolding open_request_reserving
Keeps-open_request fuel x amount l = elim (Result-cases (check_reservable l x.requester amount)) [
  | inr (e, q) ↦ rw (open_request_reserving, q) (Keeps-refl l)
  | inl (total, q) ↦ elim (Bool-cases (has_room l.requests)) [
    | inr r ↦ rw (open_request_reserving, q, r) (Keeps-refl l)
    | inl r ↦ elim (Bool-cases (has_room l.reservations)) [
      | inr k ↦ rw (open_request_reserving, q, r, k) (Keeps-refl l)
      | inl k ↦
          let m : Ledger = record l { requests = (Slab.insert x l.requests).1 } in
          let here : Keeps l m = Keeps-insert_request x l in
          elim (Result-cases (Slab.insert x l.requests).0) [
            | inr (e, i) ↦ rw (open_request_reserving, q, r, k, i) here
            | inl (h, i) ↦
                rw (open_request_reserving, q, r, k, i)
                  (Keeps-with_owner h l
                    (take_claim fuel x.requester amount x.deadline (request_owner h) total m)
                    (KeptBy-trans
                      (take_claim fuel x.requester amount x.deadline (request_owner h) total m) here
                      (Keeps-take_claim fuel x.requester amount x.deadline (request_owner h) total
                        m)))
          ]
    ]
  ]
]

abbrev ReclaimedIn : Ledger → Option (ℕ × Ledger) → Type 0
ReclaimedIn l none = Unit
ReclaimedIn l (some (n, m)) = Keeps l m

ReclaimedIn-trans :
    {l m : Ledger} (o : Option (ℕ × Ledger)) → Keeps l m → ReclaimedIn m o → ReclaimedIn l o
ReclaimedIn-trans none k n = tt
ReclaimedIn-trans (some (i, m')) k n = Keeps-trans k n

Keeps-reclaim_from :
    (fuel : ℕ) (a : AccountIdx) (now : Ts) (cursor reclaimed : ℕ) (l : Ledger)
    → ReclaimedIn l (reclaim_from fuel a now cursor reclaimed l)
unfolding reclaim_from
Keeps-reclaim_from zero a now cursor reclaimed l = tt
Keeps-reclaim_from (suc fuel) a now cursor reclaimed l = elim (Bool-cases (cursor == nil)) [
  | inl e ↦ rw (reclaim_from, e) (Keeps-refl l)
  | inr n ↦ elim (Option-cases (reservation_at l.reservations cursor)) [
    | inl q ↦ rw (reclaim_from, n, q) (Keeps-refl l)
    | inr (r, q) ↦ elim (Option-cases (is_expired_at r now)) [
      | inl x ↦ rw (reclaim_from, n, q, x) (Keeps-refl l)
      | inr (expired, x) ↦ elim (Bool-cases expired) [
        | inr alive ↦ rw (reclaim_from, n, q, x, alive) (Keeps-refl l)
        | inl dead ↦ elim (Option-cases (Slab.handle_at l.reservations cursor)) [
          | inl g ↦ rw (reclaim_from, n, q, x, dead, g) (Keeps-refl l)
          | inr (h, g) ↦
              rw (reclaim_from, n, q, x, dead, g)
                (ReclaimedIn-trans
                  (reclaim_from fuel a now (next_of r.links) (saturating_add u32_max reclaimed 1)
                    (reclaim a h r l))
                  (Keeps-reclaim a h r l)
                  (Keeps-reclaim_from fuel a now (next_of r.links)
                    (saturating_add u32_max reclaimed 1) (reclaim a h r l)))
        ]
      ]
    ]
  ]
]

pub Keeps-release_expired :
    (fuel : ℕ) (a : AccountIdx) (now : Ts) (l : Ledger) → KeptBy l (release_expired fuel a now l)
unfolding release_expired
Keeps-release_expired fuel a now l = elim (Option-cases (get_elem? l.accounts a)) [
  | inl e ↦ rw (release_expired, e) (Keeps-refl l)
  | inr (b, e) ↦
      let kept = Keeps-reclaim_from fuel a now b.expiry_head 0 l in
      elim (Option-cases (reclaim_from fuel a now b.expiry_head 0 l)) [
        | inl q ↦ rw (release_expired, e, q) tt
        | inr (p, q) ↦ let k : Keeps l p.1 = rw q at kept in rw (release_expired, e, q) k
      ]
]
