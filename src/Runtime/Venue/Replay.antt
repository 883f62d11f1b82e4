-- ===== src/Runtime/Venue/Replay.antt =====
-- crates/runtime/src/venue.rs: the log of a round replays to the engine of the round.
use rfq_matching_settlement.Prelude.{
  ℕ, ◌≡◌, refl, ap, ◌∙◌, sym, Bool-cases, inl, inr, Bool, true, false, Option, none, some, List, [],
  ◌∷◌, ◌++◌, arith, u64_max, saturating_add,
}
use rfq_matching_settlement.Prelude.Result.{Result, ok}
use rfq_matching_settlement.Core.Config.{Config}
use rfq_matching_settlement.Core.Event.{Event, new_buffer, clear_events, drain_events}
use rfq_matching_settlement.Core.Engine.{Engine, EngineError, Turn, new_engine}
use rfq_matching_settlement.Core.Engine.Apply.{apply}
use rfq_matching_settlement.Runtime.Venue.{
  HaltReason, channel_closed, log_unrecordable, LogEntry, Arrival, Round, new_round, cleared,
  send_event, send_events, SequencedEvent, replay_on, engine_of, note_entry, count_check,
  drain_buffer, answered, serve, go_on, run_engine, turn_of, then_replay, replay_entries, replay,
}

replay_append :
    (fuel : ℕ) (xs ys : List LogEntry) (t u : Turn)
    → replay_entries fuel xs t ≡ some u
    → replay_entries fuel (xs ++ ys) t ≡ replay_entries fuel ys u
unfolding replay_entries
replay_append fuel [] ys t u e = ap (λ o. then_replay o (replay_entries fuel ys)) e
replay_append fuel (x ∷ xs) ys t u e =
    go (turn_of (apply fuel x.command x.at (cleared t))) (λ t'. replay_append fuel xs ys t' u) e
  where
    go :
        (o : Option Turn)
        → ((t' : Turn)
            → replay_entries fuel xs t' ≡ some u
            → replay_entries fuel (xs ++ ys) t' ≡ replay_entries fuel ys u)
        → then_replay o (λ t'. replay_entries fuel xs t') ≡ some u
        → then_replay o (λ t'. replay_entries fuel (xs ++ ys) t') ≡ replay_entries fuel ys u
    go none later e = absurd (ground (arith, e))
    go (some t') later e = later t' e

-- The events that are sent on change neither the engine nor the log.
send_event_frame :
    (d : Bool) (e : SequencedEvent) (s : Round)
    → ((send_event d e s).turn ≡ s.turn) × ((send_event d e s).log ≡ s.log)
send_event_frame true e s = (refl, refl)
send_event_frame false e s = (refl, refl)

send_events_frame :
    (a : Arrival) (events : List Event) (s : Round)
    → ((send_events a events s).turn ≡ s.turn) × ((send_events a events s).log ≡ s.log)
unfolding send_events
send_events_frame a [] s = (refl, refl)
send_events_frame a (event ∷ rest) s =
    let sequenced : SequencedEvent = record { sequence = s.event_sequence; event = event } in
    let counted : Round = record s { event_sequence = saturating_add u64_max s.event_sequence 1 } in
    let one = send_event_frame (a.delivered sequenced) sequenced counted in
    let all = send_events_frame a rest (send_event (a.delivered sequenced) sequenced counted) in
    (all.0 ∙ one.0, all.1 ∙ one.1)

-- The log so far replays to the engine.
record Replays (fuel : ℕ) (t : Turn) (s : Round) : Type 0 where
  pub last : Turn
  pub ends_so : replay_entries fuel s.log t ≡ some last
  pub agrees : cleared last ≡ cleared s.turn

recorded-Replays :
    (fuel : ℕ) (t : Turn) (a : Arrival) (s : Round) (outcome : Result EngineError (Unit {0}))
    (turn : Turn) (entry : LogEntry)
    → entry.command ≡ a.command
    → entry.at ≡ a.at
    → apply fuel a.command a.at (cleared s.turn) ≡ some (outcome, turn)
    → Replays fuel t s
    → Replays fuel t (count_check (drain_buffer a (note_entry entry (record s { turn = turn }))))
unfolding replay_entries drain_events clear_events
recorded-Replays fuel t a s outcome turn entry c m q p =
    let noted : Round = note_entry entry (record s { turn = turn }) in
    let frame =
      send_events_frame a turn.buffer.events
        (record noted { turn = record turn { buffer = record turn.buffer { events = [] } } }) in
    let ran : apply fuel entry.command entry.at (cleared p.last) ≡ some (outcome, turn) =
      rw (c, m, p.agrees) q in
    record {
      last = turn;
      ends_so =
          ap (λ l. replay_entries fuel l t) frame.1
          ∙ replay_append fuel s.log (entry ∷ []) t p.last p.ends_so
          ∙ ap (λ o. then_replay (turn_of o) (replay_entries fuel [])) ran;
      agrees = ap cleared (sym frame.0);
    }

serve-Replays :
    (fuel : ℕ) (t : Turn) (a : Arrival) (s s' : Round)
    → Replays fuel t s
    → serve fuel a s ≡ some (none, s')
    → Replays fuel t s'
unfolding serve
serve-Replays fuel t a s s' p e = go (apply fuel a.command a.at (cleared s.turn)) refl e
  where
    go :
        (o : Option (Result EngineError (Unit {0}) × Turn))
        → apply fuel a.command a.at (cleared s.turn) ≡ o
        → answered a s o ≡ some (none, s')
        → Replays fuel t s'
    go none q e = absurd (ground (arith, e))
    go (some (outcome, turn)) q e =
        let entry : LogEntry = record {
          sequence = s.sequence;
          at = a.at;
          command = a.command;
          outcome = outcome;
        } in
        elim (Bool-cases (a.recorded entry)) [
          | inl y ↦
              let made : count_check (drain_buffer a (note_entry entry (record s { turn = turn })))
                  ≡ s' =
                ground (arith, e, y) in
              rw (← made) (recorded-Replays fuel t a s outcome turn entry refl refl q p)
          | inr n ↦ absurd (ground (arith, e, n))
        ]

-- A command halts the loop only for want of room in the log.
serve_halts :
    (fuel : ℕ) (a : Arrival) (s s' : Round) (halt : HaltReason)
    → serve fuel a s ≡ some (some halt, s')
    → halt ≡ log_unrecordable
unfolding serve
serve_halts fuel a s s' halt e = go (apply fuel a.command a.at (cleared s.turn)) e
  where
    go :
        (o : Option (Result EngineError (Unit {0}) × Turn))
        → answered a s o ≡ some (some halt, s')
        → halt ≡ log_unrecordable
    go none e = absurd (ground (arith, e))
    go (some (outcome, turn)) e = ground (arith, e)

run-Replays :
    (fuel : ℕ) (t : Turn) (arrivals : List Arrival) (s s' : Round)
    → Replays fuel t s
    → run_engine fuel arrivals s ≡ some (channel_closed, s')
    → Replays fuel t s'
unfolding run_engine
run-Replays fuel t [] s s' p e = let same : s ≡ s' = ground (arith, e) in rw (← same) p
run-Replays fuel t (a ∷ rest) s s' p e =
    go (serve fuel a s) (λ s1. run-Replays fuel t rest s1 s') refl e
  where
    go :
        (o : Option (Option HaltReason × Round))
        → ((s1 : Round)
            → Replays fuel t s1
            → run_engine fuel rest s1 ≡ some (channel_closed, s')
            → Replays fuel t s')
        → serve fuel a s ≡ o
        → go_on o (λ s1. run_engine fuel rest s1) ≡ some (channel_closed, s')
        → Replays fuel t s'
    go none later q e = absurd (ground (arith, e))
    go (some (some halt, s1)) later q e = absurd (ground (arith, e, serve_halts fuel a s s1 halt q))
    go (some (none, s1)) later q e = later s1 (serve-Replays fuel t a s s1 p q) e

-- The log of a round that ends when its commands do, replayed from the same configuration with a buffer of
-- the same size, gives the engine that the round ended with, whatever the commands, what the clock said and
-- which events were dropped.
pub replay-run_engine :
    (fuel : ℕ) (config : Config) (room : ℕ) (e : Engine) (arrivals : List Arrival) (s : Round)
    → new_engine config ≡ ok (some e)
    → run_engine fuel arrivals (new_round e room) ≡ some (channel_closed, s)
    → replay fuel config s.log room ≡ ok (some s.turn.engine)
unfolding replay replay_entries
replay-run_engine fuel config room e arrivals s made ran =
    let t : Turn = record { engine = e; buffer = new_buffer room } in
    let p =
      run-Replays fuel t arrivals (new_round e room) s
        (record { last = t; ends_so = refl; agrees = refl }) ran in
    ap (λ r. replay_on fuel r s.log room) made
    ∙ ap (λ o. ok (engine_of o)) p.ends_so
    ∙ ap (λ u. ok (some u.engine)) p.agrees
