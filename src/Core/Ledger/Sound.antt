-- ===== src/Core/Ledger/Sound.antt =====
-- crates/core/src/ledger.rs: books that are in order, and the operations that can only lower what
-- the claims add up to.
pub mod Release
pub mod Admission
use rfq_matching_settlement.Prelude.{
  ℕ, suc, ◌+◌, ◌≤◌, ◌<◌, ◌≡◌, refl, sym, ap, ◌∙◌, inl, inr, Option, none, some, List, [], ◌∷◌, map,
  arith, get_elem?, get_elem?-some, length, length-set, Option-cases, Bool-cases, ltb, ◌==◌,
  if◌then◌else◌, u64_max, sum_by,
}
use native.Mathlib.Nat.{le_trans, le_refl}
use rfq_matching_settlement.Core.Types.{AccountIdx}
use rfq_matching_settlement.Core.Slab
use rfq_matching_settlement.Core.Slab.{Handle, Slab, Slot, value_of}
use rfq_matching_settlement.Core.Slab.Freeing.{stale, empties, remove-Removes}
use rfq_matching_settlement.Core.Account.{MirroredBalance}
use rfq_matching_settlement.Core.Reservation.{Reservation, ResOwner, is_committed}
use rfq_matching_settlement.Core.Ledger.{Ledger, update_account, set_owner_claim}
use rfq_matching_settlement.Core.Ledger.Chains.{touch}
use rfq_matching_settlement.Core.Ledger.Bare.{shape, bare, bare_account}
use rfq_matching_settlement.Core.Ledger.Claims.{
  claims, slot_weight, claims-remove, claims-modify, le-claims,
}
use rfq_matching_settlement.Core.Ledger.Tallies.{
  Tallied, reserved_by, committed_by, claims_same, set_owner_claim_frame,
}
use rfq_matching_settlement.Core.Ledger.Release.{update_account_reservations}

-- A claim counts if it names an account outside the mirror.
abbrev pub foreign : ℕ → Reservation → ℕ
foreign n r = if ltb r.account n then 0 else 1

-- What a claim adds to what an account owes, reserved or committed.
abbrev pub owed_by : AccountIdx → Reservation → ℕ
owed_by a r = if r.account == a then r.amount else 0

-- The books are in order: the stored totals are the sums of the claims, every claim names an account
-- of the mirror, and what an account owes in all fits a u64.
pub record IsSound (l : Ledger) : Type 0 where
  pub tallied : Tallied l
  pub owned : claims (foreign (length l.accounts)) l.reservations ≡ 0
  pub bounded : (a : AccountIdx) → claims (owed_by a) l.reservations ≤ u64_max

-- A quantity that depends on a claim's account and amount, and grows with the amount.
pub record IsWeight (w : Reservation → ℕ) : Type 0 where
  pub shaped : (r : Reservation) → w (shape r) ≡ w r
  pub grows : (r q : Reservation) → r.account ≡ q.account → r.amount ≤ q.amount → w r ≤ w q

pub foreign-IsWeight : (n : ℕ) → IsWeight (foreign n)
foreign-IsWeight n = record { shaped = λ r. refl; grows = λ r q e h. ground (arith, e) }

pub owed_by-IsWeight : (a : AccountIdx) → IsWeight (owed_by a)
owed_by-IsWeight a = record { shaped = λ r. refl; grows = λ r q e h. ground (arith, e, h) }

pub owed_sum :
    (a : AccountIdx) (s : Slab Reservation)
    → claims (owed_by a) s ≡ claims (reserved_by a) s + claims (committed_by a) s
owed_sum a s = go s.slots
  where
    go :
        (slots : List (Slot Reservation))
        → sum_by (slot_weight (owed_by a)) slots
          ≡ sum_by (slot_weight (reserved_by a)) slots + sum_by (slot_weight (committed_by a)) slots
    go [] = refl
    go (slot ∷ rest) = ground (arith, go rest)

-- A claim's account is known, and what it owes fits a u64.
pub known_account :
    (l : Ledger) (h : Handle) (r : Reservation)
    → IsSound l
    → Slab.get l.reservations h ≡ some r
    → (b : MirroredBalance) × (get_elem? l.accounts r.account ≡ some b)
      × (b.reserved + b.committed ≤ u64_max)
known_account l h r s at =
    let least = le-claims (foreign (length l.accounts)) l.reservations h at in
    let (b, q) = get_elem?-some l.accounts r.account (ground (arith, least, s.owned)) in
    let (x, y) = s.tallied r.account b q in
    (b, q, omega (arith, x, y, owed_sum r.account l.reservations, s.bounded r.account))

-- The mirror has as many accounts, and the claims add up to no more.
pub record Shrinks (l l' : Ledger) : Type 0 where
  pub size : length l'.accounts ≡ length l.accounts
  pub less : (w : Reservation → ℕ) → IsWeight w → claims w l'.reservations ≤ claims w l.reservations

pub Shrinks-refl : (l : Ledger) → Shrinks l l
Shrinks-refl l = record { size = refl; less = λ w v. le_refl (claims w l.reservations) }

pub Shrinks-trans : {l m n : Ledger} → Shrinks l m → Shrinks m n → Shrinks l n
Shrinks-trans a b = record {
  size = b.size ∙ a.size;
  less = λ w v. le_trans (b.less w v) (a.less w v);
}

pub Shrinks-IsSound : {l m : Ledger} → Shrinks l m → Tallied m → IsSound l → IsSound m
Shrinks-IsSound {l} {m} k t s = record {
  tallied = t;
  owned =
      let fewer = k.less (foreign (length l.accounts)) (foreign-IsWeight (length l.accounts)) in
      rw k.size (omega (arith, fewer, s.owned));
  bounded = λ a. le_trans (k.less (owed_by a) (owed_by-IsWeight a)) (s.bounded a);
}

length-map : {A B : Type 0} (f : A → B) (xs : List A) → length (map f xs) ≡ length xs
length-map f [] = refl
length-map f (x ∷ xs) = ap suc (length-map f xs)

pub Shrinks-bare : (l m : Ledger) → bare m ≡ bare l → Shrinks l m
Shrinks-bare l m e = record {
  size =
      sym (length-map bare_account m.accounts)
      ∙ ap (λ (x : Ledger). length x.accounts) e
      ∙ length-map bare_account l.accounts;
  less = λ w v. omega (arith, claims_same w l m v.shaped e);
}

pub Shrinks-same :
    (l m : Ledger) → m.accounts ≡ l.accounts → m.reservations ≡ l.reservations → Shrinks l m
Shrinks-same l m a r = record { size = ap length a; less = λ w v. omega (arith, ap (claims w) r) }

pub Shrinks-update_account :
    (k : AccountIdx) (f : MirroredBalance → MirroredBalance) (l : Ledger)
    → Shrinks l (update_account k f l)
unfolding update_account
Shrinks-update_account k f l = record {
  size = size;
  less = λ w v. omega (arith, ap (claims w) (update_account_reservations k f l));
}
  where
    size : length (update_account k f l).accounts ≡ length l.accounts
    size = elim (Option-cases (get_elem? l.accounts k)) [
      | inl e ↦ rw (update_account, e) refl
      | inr (b, e) ↦ rw (update_account, e) (length-set l.accounts k (f b))
    ]

pub Shrinks-set_owner_claim :
    (o : ResOwner) (c : Option Handle) (l : Ledger) → Shrinks l (set_owner_claim o c l)
Shrinks-set_owner_claim o c l =
    let (a, r) = set_owner_claim_frame o c l in Shrinks-same l (set_owner_claim o c l) a r

pub Shrinks-remove :
    (h : Handle) (l : Ledger)
    → Shrinks l (record l { reservations = (Slab.remove h l.reservations).1 })
Shrinks-remove h l = record {
  size = refl;
  less = λ w v. elim (remove-Removes h l.reservations) [
    | stale gone e ↦ rw e (le_refl (claims w l.reservations))
    | empties r slot at there same state e ↦ omega (arith, claims-remove w l.reservations h at)
  ];
}

modify_stale :
    (h : Handle) (f : Reservation → Reservation) (s : Slab Reservation)
    → Slab.get s h ≡ none
    → Slab.modify h f s ≡ s
unfolding Slab.modify Slab.get
modify_stale h f s e = elim (Option-cases (get_elem? s.slots h.index)) [
  | inl q ↦ rw (Slab.modify, q) refl
  | inr (slot, q) ↦ elim (Bool-cases (slot.generation == h.generation)) [
    | inr n ↦ rw (Slab.modify, q, n) refl
    | inl y ↦ elim (Option-cases (value_of slot.state)) [
      | inr (v, there) ↦ absurd (ground (arith, q, y, there, e))
      | inl empty ↦ ground (arith, q, y, empty)
    ]
  ]
]

-- A claim that keeps its account and does not grow.
pub Shrinks-modify :
    (h : Handle) (f : Reservation → Reservation) (l : Ledger)
    → ((r : Reservation)
        → Slab.get l.reservations h ≡ some r
        → ((f r).account ≡ r.account) × ((f r).amount ≤ r.amount))
    → Shrinks l (record l { reservations = Slab.modify h f l.reservations })
Shrinks-modify h f l small = record {
  size = refl;
  less = λ w v. elim (Option-cases (Slab.get l.reservations h)) [
    | inl e ↦ rw (modify_stale h f l.reservations e) (le_refl (claims w l.reservations))
    | inr (r, e) ↦
        let (same, less) = small r e in
        omega (arith, claims-modify w l.reservations h f e, v.grows (f r) r same less)
  ];
}

pub Shrinks-touch :
    (i : ℕ) (f : Reservation → Reservation) (l : Ledger)
    → ((r : Reservation) → ((f r).account ≡ r.account) × ((f r).amount ≤ r.amount))
    → Shrinks l (touch i f l)
unfolding touch
Shrinks-touch i f l small = elim (Option-cases (Slab.handle_at l.reservations i)) [
  | inl e ↦ rw (touch, e) (Shrinks-refl l)
  | inr (h, e) ↦ rw (touch, e) (Shrinks-modify h f l (λ r q. small r))
]
