-- ===== src/Core/Request.antt =====
-- crates/core/src/request.rs: requests and their legs. The fixed array of legs is a list of eight
-- slots, of which the first `n_legs` are real.
use rfq_matching_settlement.Prelude.{
  ℕ, Bool, true, false, ◌&&◌, Option, none, some, List, [], length, take, get_elem?, set, ltb, leb,
  if◌then◌else◌,
}
use rfq_matching_settlement.Core.Types.{Price, Size, Ts, Side, LegId, AccountIdx}
use rfq_matching_settlement.Core.Contract.{ContractIdx}
use rfq_matching_settlement.Core.Settlement.{Nonce}
use rfq_matching_settlement.Core.Slab.{nil, Handle}

-- `Nonce::of`.
abbrev pub nonce_of : Handle → Nonce
nonce_of h = record { request = h.index; generation = h.generation }

pub data RequestState : Type 0 where
  open_state : RequestState
  settling : (nonce : Nonce) → (deadline : Ts) → RequestState
  escrowed rejected settlement_failed : RequestState

-- `RequestState::is_terminal`.
abbrev pub is_terminal : RequestState → Bool
is_terminal open_state = false
is_terminal (settling nonce deadline) = false
is_terminal escrowed = true
is_terminal rejected = true
is_terminal settlement_failed = true

-- `RequestState::nonce`.
abbrev pub nonce_in_flight : RequestState → Option Nonce
nonce_in_flight (settling nonce deadline) = some nonce
nonce_in_flight open_state = none
nonce_in_flight escrowed = none
nonce_in_flight rejected = none
nonce_in_flight settlement_failed = none

pub record Leg : Type 0 where
  pub contract : ContractIdx
  pub side : Side
  pub size : Size
  pub limit : Price
  pub quotes_head : ℕ
  pub quote_count : ℕ
  pub published : Option Price

-- `Leg::new`.
abbrev pub new_leg : ContractIdx → Side → Size → Price → Leg
new_leg contract side quantity limit = record {
  contract = contract;
  side = side;
  size = quantity;
  limit = limit;
  quotes_head = nil;
  quote_count = 0;
  published = none;
}

pub record Request : Type 0 where
  pub requester : AccountIdx
  pub deadline : Ts
  pub state : RequestState
  pub n_legs : ℕ
  pub slots : List Leg
  pub claim : Option Handle
  pub committed_head : ℕ

-- `Request::new`.
abbrev pub new_request : AccountIdx → Ts → List Leg → ℕ → Request
new_request requester deadline legs n_legs = record {
  requester = requester;
  deadline = deadline;
  state = open_state;
  n_legs = n_legs;
  slots = legs;
  claim = none;
  committed_head = nil;
}

abbrev pub is_open : RequestState → Bool
is_open open_state = true
is_open (settling nonce deadline) = false
is_open escrowed = false
is_open rejected = false
is_open settlement_failed = false

-- `Request::is_expired_at`, `Request::is_live_at`.
abbrev pub is_expired_at : Request → Ts → Bool
is_expired_at r now = is_open r.state && leb r.deadline now

abbrev pub is_live_at : Request → Ts → Bool
is_live_at r now = is_open r.state && ltb now r.deadline

-- `Request::legs`: none where the count is past the array.
unfoldable pub legs : Request → List Leg
legs r = if leb r.n_legs (length r.slots) then take r.n_legs r.slots else []

-- `Request::leg`.
unfoldable pub leg_at : Request → LegId → Option Leg
unfolding legs
leg_at r leg = get_elem? (legs r) leg

-- `Request::leg_mut`, and a write through the reference that it returns.
unfoldable pub write_leg : LegId → Leg → Request → Request
write_leg leg value r = if leb r.n_legs leg then r else record r { slots = set r.slots leg value }

-- `Selection`: the quote that wins a leg, and the price that it fills at.
pub record Selection : Type 0 where
  pub quote : Handle
  pub price : Price
