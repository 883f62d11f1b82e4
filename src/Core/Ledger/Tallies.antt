-- ===== src/Core/Ledger/Tallies.antt =====
-- crates/core/src/ledger.rs: the stored totals of an account are the sums of its claims.
use mathlib.Core.Option
use native.Mathlib.Decide.{ℕ_discrete}
use rfq_matching_settlement.Prelude.{
  ℕ, zero, suc, ◌≡◌, refl, sym, ap, ◌∙◌, inl, inr, Option, some, List, [], ◌∷◌, map, arith,
  get_elem?, get_elem?-lt, get_elem?-set_self, get_elem?-set_ne, set, Option-cases, ◌==◌,
  if◌then◌else◌,
}
use rfq_matching_settlement.Core.Types.{AccountIdx}
use rfq_matching_settlement.Core.Slab
use rfq_matching_settlement.Core.Slab.{Handle, Slab}
use rfq_matching_settlement.Core.Account.{MirroredBalance}
use rfq_matching_settlement.Core.Reservation.{
  Reservation, ResOwner, quote_owner, request_owner, is_committed,
}
use rfq_matching_settlement.Core.Ledger.{Ledger, update_account, set_owner_claim}
use rfq_matching_settlement.Core.Ledger.Bare.{shape, bare, bare_account}
use rfq_matching_settlement.Core.Ledger.Claims.{claims, claims-bare, get-bare}

-- What a claim adds to the reserved total of an account, and to the committed total.
abbrev pub reserved_by : AccountIdx → Reservation → ℕ
reserved_by a r = if r.account == a then (if is_committed r then 0 else r.amount) else 0

abbrev pub committed_by : AccountIdx → Reservation → ℕ
committed_by a r = if r.account == a then (if is_committed r then r.amount else 0) else 0

-- The totals stored for every account are those of its claims.
abbrev pub Tallied : Ledger → Type 0
Tallied l =
    (a : AccountIdx) (e : MirroredBalance)
    → get_elem? l.accounts a ≡ some e
    → (e.reserved ≡ claims (reserved_by a) l.reservations)
      × (e.committed ≡ claims (committed_by a) l.reservations)

pub reserved_by-shape :
    (a : AccountIdx) (r : Reservation) → reserved_by a (shape r) ≡ reserved_by a r
reserved_by-shape a r = ground arith

pub committed_by-shape :
    (a : AccountIdx) (r : Reservation) → committed_by a (shape r) ≡ committed_by a r
committed_by-shape a r = ground arith

-- Ledgers that differ in links have the same sums, the same totals and the same claims.
pub claims_same :
    (w : Reservation → ℕ) (l l' : Ledger)
    → ((r : Reservation) → w (shape r) ≡ w r)
    → bare l' ≡ bare l
    → claims w l'.reservations ≡ claims w l.reservations
claims_same w l l' keeps e =
    sym (claims-bare w l'.reservations keeps)
    ∙ ap (λ (m : Ledger). claims w m.reservations) e
    ∙ claims-bare w l.reservations keeps

get_elem?-map :
    {A B : Type 0} (f : A → B) (xs : List A) (i : ℕ)
    → get_elem? (map f xs) i ≡ Option.map f (get_elem? xs i)
get_elem?-map f [] i = refl
get_elem?-map f (x ∷ xs) zero = refl
get_elem?-map f (x ∷ xs) (suc i) = get_elem?-map f xs i

pub account_same :
    (l l' : Ledger) (a : AccountIdx)
    → bare l' ≡ bare l
    → Option.map bare_account (get_elem? l'.accounts a)
      ≡ Option.map bare_account (get_elem? l.accounts a)
account_same l l' a e =
    sym (get_elem?-map bare_account l'.accounts a)
    ∙ ap (λ (m : Ledger). get_elem? m.accounts a) e
    ∙ get_elem?-map bare_account l.accounts a

pub claim_same :
    (l l' : Ledger) (h : Handle)
    → bare l' ≡ bare l
    → Option.map shape (Slab.get l'.reservations h) ≡ Option.map shape (Slab.get l.reservations h)
claim_same l l' h e =
    sym (get-bare l'.reservations h)
    ∙ ap (λ (m : Ledger). Slab.get m.reservations h) e
    ∙ get-bare l.reservations h

pub Tallied-bare : (l l' : Ledger) → bare l' ≡ bare l → Tallied l → Tallied l'
Tallied-bare l l' same t a e at = elim (Option-cases (get_elem? l.accounts a)) [
  | inl q ↦ absurd (ground (arith, q, at, account_same l l' a same))
  | inr (b, q) ↦ ground (
    arith,
    at,
    q,
    t a b q,
    account_same l l' a same,
    claims_same (reserved_by a) l l' (reserved_by-shape a) same,
    claims_same (committed_by a) l l' (committed_by-shape a) same,
  )
]

-- An account after a write to an account.
pub get_elem?-update_account :
    (k a : AccountIdx) (f : MirroredBalance → MirroredBalance) (l : Ledger)
    → get_elem? (update_account k f l).accounts a
      ≡ (if a == k then Option.map f (get_elem? l.accounts a) else get_elem? l.accounts a)
unfolding update_account
get_elem?-update_account k a f l = elim (Option-cases (get_elem? l.accounts k)) [
  | inl e ↦ ground (arith, e, ap (get_elem? l.accounts))
  | inr (b, e) ↦ elim (ℕ_discrete k a) [
    | yes q ↦ ground (
      arith,
      e,
      ap (get_elem? l.accounts) q,
      ap (get_elem? (set l.accounts k (f b))) q,
      get_elem?-set_self l.accounts k (f b) (get_elem?-lt l.accounts k e),
    )
    | no n ↦ ground (arith, e, get_elem?-set_ne l.accounts k a (f b) n)
  ]
]

-- Naming a claim at its owner touches neither the accounts nor the claims.
pub set_owner_claim_frame :
    (o : ResOwner) (c : Option Handle) (l : Ledger)
    → ((set_owner_claim o c l).accounts ≡ l.accounts)
      × ((set_owner_claim o c l).reservations ≡ l.reservations)
unfolding set_owner_claim
set_owner_claim_frame (quote_owner h) c l = (refl, refl)
set_owner_claim_frame (request_owner h) c l = (refl, refl)

-- A claim, or an account, is still there in a ledger that differs in links.
pub claim_found :
    (l l' : Ledger) (h : Handle) (r : Reservation)
    → bare l' ≡ bare l
    → Slab.get l.reservations h ≡ some r
    → (q : Reservation) × (Slab.get l'.reservations h ≡ some q)
      × (q.account ≡ r.account)
      × (q.amount ≡ r.amount)
      × (q.owner ≡ r.owner)
      × (is_committed q ≡ is_committed r)
claim_found l l' h r same at = elim (Option-cases (Slab.get l'.reservations h)) [
  | inl e ↦ absurd (ground (arith, e, at, claim_same l l' h same))
  | inr (q, e) ↦
      let fact : shape q ≡ shape r = ground (arith, e, at, claim_same l l' h same) in
      (q, e, ground (arith, fact), ground (arith, fact), ground (arith, fact), ground (arith, fact))
]

pub account_found :
    (l l' : Ledger) (a : AccountIdx) (b : MirroredBalance)
    → bare l' ≡ bare l
    → get_elem? l.accounts a ≡ some b
    → (c : MirroredBalance) × (get_elem? l'.accounts a ≡ some c)
      × (c.free ≡ b.free)
      × (c.reserved ≡ b.reserved)
      × (c.committed ≡ b.committed)
account_found l l' a b same at = elim (Option-cases (get_elem? l'.accounts a)) [
  | inl e ↦ absurd (ground (arith, e, at, account_same l l' a same))
  | inr (c, e) ↦
      let fact : bare_account c ≡ bare_account b =
        ground (arith, e, at, account_same l l' a same) in
      (c, e, ground (arith, fact), ground (arith, fact), ground (arith, fact))
]
