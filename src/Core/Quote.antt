-- ===== src/Core/Quote.antt =====
-- crates/core/src/quote.rs: a maker's firm offer on one leg of a request.
use rfq_matching_settlement.Prelude.{ℕ, Bool, true, false, ◌&&◌, Option, none, ltb}
use rfq_matching_settlement.Core.Types.{Price, Size, Ts, LegId, AccountIdx}
use rfq_matching_settlement.Core.Slab.{nil, Handle}

pub data QuoteState : Type 0 where
  active consumed released : QuoteState

pub record Quote : Type 0 where
  pub maker : AccountIdx
  pub request : Handle
  pub leg : LegId
  pub price : Price
  pub size : Size
  pub expires_at : Ts
  pub arrival : ℕ
  pub state : QuoteState
  pub next_on_leg : ℕ
  pub claim : Option Handle

-- `Quote::new`.
abbrev pub new_quote : AccountIdx → Handle → LegId → Price → Size → Ts → ℕ → Quote
new_quote maker request leg price quantity expires_at arrival = record {
  maker = maker;
  request = request;
  leg = leg;
  price = price;
  size = quantity;
  expires_at = expires_at;
  arrival = arrival;
  state = active;
  next_on_leg = nil;
  claim = none;
}

abbrev pub is_active : QuoteState → Bool
is_active active = true
is_active consumed = false
is_active released = false

-- `Quote::is_live_at`.
abbrev pub is_live_at : Quote → Ts → Bool
is_live_at q now = is_active q.state && ltb now q.expires_at
