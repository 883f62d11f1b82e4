-- ===== src/Core/Event.antt =====
-- crates/core/src/event.rs: what the engine tells its listeners, and the buffer that the caller
-- provides for it. The fixed arrays of legs are lists of eight slots with a count.
use rfq_matching_settlement.Prelude.{
  ℕ, Option, none, some, List, [], ◌∷◌, ◌++◌, length, ltb, leb, if◌then◌else◌, u64_max, checked_add,
}
use rfq_matching_settlement.Prelude.Result.{Result, ok, err}
use rfq_matching_settlement.Core.Types.{
  Price, Size, Ts, Side, yes_side, LegId, AccountIdx, EscrowId,
}
use rfq_matching_settlement.Core.Contract.{ContractIdx, Outcome}
use rfq_matching_settlement.Core.Settlement.{Nonce, TxStatus}
use rfq_matching_settlement.Core.Slab.{Handle}
pub mod Room

pub record OpenLeg : Type 0 where
  pub contract : ContractIdx
  pub side : Side
  pub size : Size

-- `OpenLeg::default`.
abbrev pub empty_open_leg : OpenLeg
empty_open_leg = record { contract = 0; side = yes_side; size = 0 }

pub record IntentLeg : Type 0 where
  pub contract : ContractIdx
  pub side : Side
  pub size : Size
  pub maker : AccountIdx
  pub fill_price : Price
  pub quote_expiry : Ts

-- `IntentLeg::default`.
abbrev pub empty_intent_leg : IntentLeg
empty_intent_leg = record {
  contract = 0;
  side = yes_side;
  size = 0;
  maker = 0;
  fill_price = 0;
  quote_expiry = 0;
}

pub data QuoteRejectReason : Type 0 where
  outbid failed_settlement replaced request_rejected : QuoteRejectReason

pub data Event : Type 0 where
  request_opened :
      (request : Handle) → (deadline : Ts) → (legs : List OpenLeg) → (n_legs : ℕ) → Event
  best_selection_changed : (request : Handle) → (leg : LegId) → (price : Price) → Event
  quote_rejected : (quote : Handle) → (maker : AccountIdx) → (reason : QuoteRejectReason) → Event
  quote_expired : (quote : Handle) → (maker : AccountIdx) → Event
  contract_resolved : (contract : ContractIdx) → (outcome : Outcome) → Event
  settle_intent : (escrow : EscrowId) → (contract : ContractIdx) → (outcome : Outcome) → Event
  request_escrowed : (request : Handle) → (nonce : Nonce) → Event
  request_settlement_failed : (request : Handle) → (nonce : Nonce) → Event
  settlement_stalled : (request : Handle) → (nonce : Nonce) → (status : TxStatus) → Event
  submit_intent :
      (request : Handle)
      → (nonce : Nonce) → (requester : AccountIdx) → (legs : List IntentLeg) → (n_legs : ℕ) → Event

pub record EventBuffer : Type 0 where
  pub events : List Event
  pub capacity : ℕ

pub data EventBufferFull : Type 0 where
  event_buffer_full : EventBufferFull

-- `EventBuffer::with_capacity`.
abbrev pub new_buffer : ℕ → EventBuffer
new_buffer room = record { events = []; capacity = room }

abbrev fits : Option ℕ → ℕ → Result EventBufferFull (Unit {0})
fits none room = err event_buffer_full
fits (some total) room = if leb total room then ok tt else err event_buffer_full

-- `EventBuffer::headroom`; lengths are 64-bit words.
unfoldable pub headroom : ℕ → EventBuffer → Result EventBufferFull (Unit {0})
headroom needed b = fits (checked_add u64_max (length b.events) needed) b.capacity

-- `EventBuffer::push`: an event that does not fit is dropped.
unfoldable pub push : Event → EventBuffer → EventBuffer
push e b =
    if ltb (length b.events) b.capacity then record b { events = b.events ++ (e ∷ []) } else b

-- `EventBuffer::drain`: what was written, and the emptied buffer.
unfoldable pub drain_events : EventBuffer → List Event × EventBuffer
drain_events b = (b.events, record b { events = [] })

-- `EventBuffer::clear`.
unfoldable pub clear_events : EventBuffer → EventBuffer
clear_events b = record b { events = [] }
