-- ===== src/Core/Engine/Frame.antt =====
-- crates/core/src/engine.rs: what the operations on the ledger leave alone, namely the contracts and
-- the life cycle of every request.
use rfq_matching_settlement.Prelude.{
  ℕ, zero, suc, ◌≡◌, refl, ap, ◌∙◌, inl, inr, Bool, true, false, Option, none, some, List, [], ◌∷◌,
  arith, get_elem?, Option-cases, Bool-cases, ◌==◌, if◌then◌else◌,
}
use rfq_matching_settlement.Prelude.Result.{Result, ok, err}
use rfq_matching_settlement.Core.Types.{AccountIdx, Ts}
use rfq_matching_settlement.Core.Slab
use rfq_matching_settlement.Core.Slab.{nil, Handle, Slab, SlabFull, handle_eq}
use rfq_matching_settlement.Core.Slab.Reads.{get-modify}
use rfq_matching_settlement.Core.Account.{MirroredBalance}
use rfq_matching_settlement.Core.Reservation.{ResOwner, quote_owner, request_owner, Reservation}
use rfq_matching_settlement.Core.Request.{Request, RequestState}
use rfq_matching_settlement.Core.Ledger.{Ledger, update_account, set_owner_claim}
use rfq_matching_settlement.Core.Ledger.Chains.{touch}
pub mod Claims
pub mod Admission
pub mod Laws
pub mod Legs

abbrev pub state_of : Option Request → Option RequestState
state_of none = none
state_of (some r) = some r.state

-- The state of the request that a handle names.
unfoldable pub state_at : Handle → Ledger → Option RequestState
state_at h l = state_of (Slab.get l.requests h)

pub record Keeps (l l' : Ledger) : Type 0 where
  pub contracts : l'.contracts ≡ l.contracts
  pub states : (h : Handle) (s : RequestState) → state_at h l ≡ some s → state_at h l' ≡ some s

pub Keeps-refl : (l : Ledger) → Keeps l l
Keeps-refl l = record { contracts = refl; states = λ h s e. e }

pub Keeps-trans : {l m n : Ledger} → Keeps l m → Keeps m n → Keeps l n
Keeps-trans a b = record {
  contracts = b.contracts ∙ a.contracts;
  states = λ h s e. b.states h s (a.states h s e);
}

-- An operation that touches neither table.
pub Keeps-same :
    (l l' : Ledger) → l'.contracts ≡ l.contracts → l'.requests ≡ l.requests → Keeps l l'
unfolding state_at
Keeps-same l l' c r = record {
  contracts = c;
  states = λ h s e. ap (λ q. state_of (Slab.get q h)) r ∙ e;
}

state_of-modify :
    (h k : Handle) (f : Request → Request) (q : Slab Request)
    → ((r : Request) → (f r).state ≡ r.state)
    → state_of (Slab.get (Slab.modify k f q) h) ≡ state_of (Slab.get q h)
state_of-modify h k f q same = elim (Bool-cases (handle_eq h k)) [
  | inr n ↦ rw (get-modify k h f q, n) refl
  | inl y ↦ elim (Option-cases (Slab.get q h)) [
    | inl e ↦ rw (get-modify k h f q, y, e) refl
    | inr (r, e) ↦ rw (get-modify k h f q, y, e) (ap some (same r))
  ]
]

-- A write to a request that leaves its state.
pub Keeps-modify :
    (k : Handle) (f : Request → Request) (l : Ledger)
    → ((r : Request) → (f r).state ≡ r.state)
    → Keeps l (record l { requests = Slab.modify k f l.requests })
unfolding state_at
Keeps-modify k f l same = record {
  contracts = refl;
  states = λ h s e. state_of-modify h k f l.requests same ∙ e;
}

pub Keeps-update_account :
    (k : AccountIdx) (f : MirroredBalance → MirroredBalance) (l : Ledger)
    → Keeps l (update_account k f l)
unfolding update_account
Keeps-update_account k f l = Keeps-same l (update_account k f l) (ground arith) (ground arith)

pub Keeps-touch : (i : ℕ) (f : Reservation → Reservation) (l : Ledger) → Keeps l (touch i f l)
unfolding touch
Keeps-touch i f l = Keeps-same l (touch i f l) (ground arith) (ground arith)

pub Keeps-set_owner_claim :
    (o : ResOwner) (c : Option Handle) (l : Ledger) → Keeps l (set_owner_claim o c l)
unfolding set_owner_claim
Keeps-set_owner_claim (quote_owner h) c l =
    Keeps-same l (set_owner_claim (quote_owner h) c l) refl refl
Keeps-set_owner_claim (request_owner h) c l =
    Keeps-modify h (λ r. record r { claim = c }) l (λ r. refl)

pub Keeps-reservations :
    (s : Slab Reservation) (l : Ledger) → Keeps l (record l { reservations = s })
Keeps-reservations s l = Keeps-same l (record l { reservations = s }) refl refl

-- Either of two.
pub Keeps-if : (b : Bool) {l m n : Ledger} → Keeps l m → Keeps l n → Keeps l (if b then m else n)
Keeps-if true x y = x
Keeps-if false x y = y
