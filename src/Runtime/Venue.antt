-- ===== src/Runtime/Venue.antt =====
-- crates/runtime/src/venue.rs: the engine's loop over the commands of a round, and the replay of its
-- log, with the sequence numbers of crates/runtime/src/handoff.rs.
use rfq_matching_settlement.Prelude.{
  ℕ, Bool, true, false, Option, none, some, List, [], ◌∷◌, ◌++◌, if◌then◌else◌, u64_max,
  saturating_add,
}
use rfq_matching_settlement.Prelude.Result.{Result, ok, err}
use rfq_matching_settlement.Core.Types.{Ts}
use rfq_matching_settlement.Core.Config.{Config, ConfigError}
use rfq_matching_settlement.Core.Command.{Command}
use rfq_matching_settlement.Core.Event.{Event, EventBuffer, new_buffer, clear_events, drain_events}
use rfq_matching_settlement.Core.Engine.{Engine, EngineError, Turn, new_engine}
use rfq_matching_settlement.Core.Engine.Apply.{apply}
pub mod Replay
pub mod Unrecorded

-- `Sequenced<Event>`.
pub record SequencedEvent : Type 0 where
  pub sequence : ℕ
  pub event : Event

pub data HaltReason : Type 0 where
  channel_closed log_unrecordable : HaltReason

pub record LogEntry : Type 0 where
  pub sequence : ℕ
  pub at : Ts
  pub command : Command
  pub outcome : Result EngineError (Unit {0})

-- A command received, with what the clock says then and whether the two channels take what is sent
-- on.
pub record Arrival : Type 0 where
  pub command : Command
  pub at : Ts
  pub recorded : LogEntry → Bool
  pub delivered : SequencedEvent → Bool

-- The engine thread's variables, with what has gone down the two channels.
pub record Round : Type 0 where
  pub turn : Turn
  pub sequence : ℕ
  pub event_sequence : ℕ
  pub coverage_checks : ℕ
  pub events_emitted : ℕ
  pub events_dropped : ℕ
  pub log : List LogEntry
  pub published : List SequencedEvent

-- The variables before the loop.
abbrev pub new_round : Engine → ℕ → Round
new_round e room = record {
  turn = record { engine = e; buffer = new_buffer room };
  sequence = 0;
  event_sequence = 0;
  coverage_checks = 0;
  events_emitted = 0;
  events_dropped = 0;
  log = [];
  published = [];
}

abbrev pub cleared : Turn → Turn
cleared t = record t { buffer = clear_events t.buffer }

abbrev pub send_event : Bool → SequencedEvent → Round → Round
send_event true e s = record s {
  events_emitted = saturating_add u64_max s.events_emitted 1;
  published = s.published ++ (e ∷ []);
}
send_event false e s = record s { events_dropped = saturating_add u64_max s.events_dropped 1 }

-- The loop over the drained events.
unfoldable pub send_events : Arrival → List Event → Round → Round
send_events a [] s = s
send_events a (event ∷ rest) s =
    let sequenced : SequencedEvent = record { sequence = s.event_sequence; event = event } in
    send_events a rest (
      send_event (a.delivered sequenced) sequenced
        (record s { event_sequence = saturating_add u64_max s.event_sequence 1 }))

abbrev pub note_entry : LogEntry → Round → Round
note_entry entry s = record s {
  log = s.log ++ (entry ∷ []);
  sequence = saturating_add u64_max s.sequence 1;
}

abbrev pub count_check : Round → Round
count_check s = record s { coverage_checks = saturating_add u64_max s.coverage_checks 1 }

abbrev pub drain_buffer : Arrival → Round → Round
drain_buffer a s =
    let (events, buffer) = drain_events s.turn.buffer in
    send_events a events (record s { turn = record s.turn { buffer = buffer } })

-- What the loop does with the answer to a command; `some` halts it.
abbrev pub hand_off :
    Arrival → Round → Result EngineError (Unit {0}) → Turn → Option HaltReason × Round
hand_off a s outcome turn =
    let entry : LogEntry = record {
      sequence = s.sequence;
      at = a.at;
      command = a.command;
      outcome = outcome;
    } in
    let s' : Round = record s { turn = turn } in
    if a.recorded entry
    then (none, count_check (drain_buffer a (note_entry entry s')))
    else (some log_unrecordable, s')

abbrev pub answered :
    Arrival
    → Round
    → Option (Result EngineError (Unit {0}) × Turn)
    → Option (Option HaltReason × Round)
answered a s none = none
answered a s (some (outcome, turn)) = some (hand_off a s outcome turn)

-- The loop's body.
unfoldable pub serve : ℕ → Arrival → Round → Option (Option HaltReason × Round)
serve fuel a s = answered a s (apply fuel a.command a.at (cleared s.turn))

abbrev pub go_on :
    Option (Option HaltReason × Round)
    → (Round → Option (HaltReason × Round))
    → Option (HaltReason × Round)
go_on none k = none
go_on (some (some halt, s)) k = some (halt, s)
go_on (some (none, s)) k = k s

-- `run_engine`, from the loop on: the channel closes after the commands.
unfoldable pub run_engine : ℕ → List Arrival → Round → Option (HaltReason × Round)
run_engine fuel [] s = some (channel_closed, s)
run_engine fuel (a ∷ rest) s = go_on (serve fuel a s) (λ s'. run_engine fuel rest s')

abbrev pub turn_of : Option (Result EngineError (Unit {0}) × Turn) → Option Turn
turn_of none = none
turn_of (some (outcome, turn)) = some turn

abbrev pub then_replay : Option Turn → (Turn → Option Turn) → Option Turn
then_replay none k = none
then_replay (some t) k = k t

-- The loop of `replay`.
unfoldable pub replay_entries : ℕ → List LogEntry → Turn → Option Turn
replay_entries fuel [] t = some t
replay_entries fuel (entry ∷ rest) t =
    then_replay (turn_of (apply fuel entry.command entry.at (cleared t)))
      (λ t'. replay_entries fuel rest t')

abbrev pub engine_of : Option Turn → Option Engine
engine_of none = none
engine_of (some t) = some t.engine

abbrev pub replay_on :
    ℕ → Result ConfigError (Option Engine) → List LogEntry → ℕ → Result ConfigError (Option Engine)
replay_on fuel (err e) log room = err e
replay_on fuel (ok none) log room = ok none
replay_on fuel (ok (some e)) log room =
    ok (engine_of (replay_entries fuel log (record { engine = e; buffer = new_buffer room })))

-- `replay`: the inner `none` is a startup panic, or a run that the fuel does not finish.
unfoldable pub replay : ℕ → Config → List LogEntry → ℕ → Result ConfigError (Option Engine)
replay fuel config log room = replay_on fuel (new_engine config) log room
