-- ===== src/Core/Engine.antt =====
-- crates/core/src/engine.rs: the engine's state, its errors, and the access of its handlers to the
-- ledger and to the caller's buffer. The debug assertions are not part of the model.
pub mod Legs
pub mod Release
pub mod Terms
pub mod Submit
pub mod Offer
pub mod Plan
pub mod Accept
pub mod Poll
pub mod Resolve
pub mod Apply
pub mod Frame
pub mod Lifecycle
pub mod Books
pub mod Steps
use rfq_matching_settlement.Prelude.{ℕ, ◌*◌, Option, none, some, List, get_elem?}
use rfq_matching_settlement.Prelude.Result.{Result, ok, err}
use rfq_matching_settlement.Prelude.Process.{Process}
use rfq_matching_settlement.Core.Types.{Price, Ts}
use rfq_matching_settlement.Core.Config.{Config, ConfigError, validate}
use rfq_matching_settlement.Core.Contract.{Contract, ContractIdx}
use rfq_matching_settlement.Core.Slab
use rfq_matching_settlement.Core.Slab.{Handle}
use rfq_matching_settlement.Core.Quote.{Quote, QuoteState}
use rfq_matching_settlement.Core.Request.{Request, RequestState}
use rfq_matching_settlement.Core.Selection.{NoQuoteReason}
use rfq_matching_settlement.Core.Event.{Event, EventBuffer, EventBufferFull, headroom, push}
use rfq_matching_settlement.Core.Ledger.{Ledger, LedgerError, new_tables}

pub data EngineError : Type 0 where
  ledger_refused : LedgerError → EngineError
  no_headroom expiry_overflow product_overflow : EngineError
  deadline_too_far deadline_in_the_past contract_too_near no_such_contract : EngineError
  too_many_legs no_legs price_out_of_range zero_size : EngineError
  unknown_request request_not_open request_deadline_passed unknown_leg : EngineError
  quote_expiry_in_the_past quote_ttl_too_long quote_too_small : EngineError
  worse_replacement leg_quote_limit_reached : EngineError
  quotes_are_irrevocable unknown_quote : EngineError
  leg_count_mismatch stale_nonce request_not_settling : EngineError
  oracle_status_regression outcome_not_yet : EngineError
  no_eligible_quote : (leg : ℕ) → (reason : NoQuoteReason) → EngineError
  presentation_stale : (leg : ℕ) → (expected : Price) → (actual : Price) → EngineError
  reservation_shortfall : EngineError

pub record Engine : Type 0 where
  pub config : Config
  pub ledger : Ledger
  pub next_arrival : ℕ

-- `Engine::new`: the inner `none` is the startup panic of a slab.
started :
    Config → Result ConfigError (Unit {0}) → Option Ledger → Result ConfigError (Option Engine)
started config (err e) tables = err e
started config (ok u) none = ok none
started config (ok u) (some l) =
    ok (some (record { config = config; ledger = l; next_arrival = 0 }))

unfoldable pub new_engine : Config → Result ConfigError (Option Engine)
unfolding started
new_engine config = started config (validate config) (new_tables config)

-- The engine and the caller's buffer, during one command.
pub record Turn : Type 0 where
  pub engine : Engine
  pub buffer : EventBuffer

abbrev pub Handler : Type 0 → Type 0
Handler = Process Turn EngineError

abbrev pub ledger_of : Turn → Ledger
ledger_of t = t.engine.ledger

abbrev pub with_ledger : Ledger → Turn → Turn
with_ledger l t = record t { engine = record t.engine { ledger = l } }

abbrev pub on_ledger : (Ledger → Ledger) → Turn → Turn
on_ledger f t = with_ledger (f t.engine.ledger) t

abbrev pub emit : Event → Turn → Turn
emit e t = record t { buffer = push e t.buffer }

-- `EngineError::from` of a refusal of the ledger and of a full buffer.
abbrev pub from_ledger : {A : Type 0} → Result LedgerError A → Result EngineError A
from_ledger (ok a) = ok a
from_ledger (err e) = err (ledger_refused e)

abbrev pub from_buffer : Result EventBufferFull (Unit {0}) → Result EngineError (Unit {0})
from_buffer (ok u) = ok tt
from_buffer (err e) = err no_headroom

-- `events.headroom(needed)?`.
unfoldable pub check_headroom : ℕ → Handler (Unit {0})
check_headroom needed t = some (from_buffer (headroom needed t.buffer), t)

-- `self.ledger.f(..)?`.
abbrev pub ask_ledger : {A : Type 0} → Option (Result LedgerError A × Ledger) → Handler A
ask_ledger none t = none
ask_ledger (some (r, l)) t = some (from_ledger r, with_ledger l t)

unfoldable pub run_ledger :
    {A : Type 0} → (Ledger → Option (Result LedgerError A × Ledger)) → Handler A
run_ledger f t = ask_ledger (f t.engine.ledger) t

-- The result of a pure computation on fuel.
abbrev finish_plan : {A : Type 0} → Option (Result EngineError A) → Handler A
finish_plan none t = none
finish_plan (some r) t = some (r, t)

unfoldable pub planned : {A : Type 0} → Option (Result EngineError A) → Handler A
planned o t = finish_plan o t

-- `Ledger::request_mut`, `Ledger::quote_mut`, and a write through the reference that they return.
unfoldable pub update_request : Handle → (Request → Request) → Ledger → Ledger
update_request h f l = record l { requests = Slab.modify h f l.requests }

unfoldable pub update_quote : Handle → (Quote → Quote) → Ledger → Ledger
update_quote h f l = record l { quotes = Slab.modify h f l.quotes }

abbrev pub set_request_state : RequestState → Request → Request
set_request_state state r = record r { state = state }

abbrev pub set_quote_state : QuoteState → Quote → Quote
set_quote_state state q = record q { state = state }

-- `Ledger::contract`.
abbrev joined : Option (Option Contract) → Option Contract
joined none = none
joined (some o) = o

abbrev pub contract_at : ContractIdx → Ledger → Option Contract
contract_at k l = joined (get_elem? l.contracts k)
