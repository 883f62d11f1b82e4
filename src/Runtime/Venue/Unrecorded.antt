-- ===== src/Runtime/Venue/Unrecorded.antt =====
-- crates/runtime/src/venue.rs: the round that halts for want of room in the log.
use rfq_matching_settlement.Prelude.{
  ℕ, ◌≡◌, refl, ap, ◌∙◌, inl, inr, Bool-cases, false, Option, none, some, List, [], ◌∷◌, ◌++◌,
  arith,
}
use rfq_matching_settlement.Prelude.Result.{Result, ok}
use rfq_matching_settlement.Core.Config.{Config}
use rfq_matching_settlement.Core.Engine.{Engine, EngineError, Turn, new_engine}
use rfq_matching_settlement.Core.Engine.Apply.{apply}
use rfq_matching_settlement.Runtime.Venue.{
  HaltReason, channel_closed, log_unrecordable, LogEntry, Arrival, Round, new_round, cleared,
  answered, serve, go_on, run_engine, replay,
}
use rfq_matching_settlement.Runtime.Venue.Replay.{replay-run_engine}

-- A round from `s` to `s'` whose last command was carried out and refused by the log: the commands
-- before it, in their order, and where they lead; what it did there; and its entry, which the log does
-- not take.
pub record Refusal (fuel : ℕ) (arrivals : List Arrival) (s s' : Round) : Type 0 where
  pub before : List Arrival
  pub last : Arrival
  pub after : List Arrival
  pub order : arrivals ≡ before ++ last ∷ after
  pub reached : Round
  pub ran : run_engine fuel before s ≡ some (channel_closed, reached)
  pub answer : Result EngineError (Unit {0})
  pub applied : apply fuel last.command last.at (cleared reached.turn) ≡ some (answer, s'.turn)
  pub refused :
      last.recorded (record {
        sequence = reached.sequence;
        at = last.at;
        command = last.command;
        outcome = answer;
      })
      ≡ false
  pub unlogged : s'.log ≡ reached.log

-- A command that halts the loop is the first and last of the round from there.
serve-Refusal :
    (fuel : ℕ) (a : Arrival) (rest : List Arrival) (s s' : Round) (halt : HaltReason)
    → serve fuel a s ≡ some (some halt, s')
    → Refusal fuel (a ∷ rest) s s'
unfolding serve run_engine
serve-Refusal fuel a rest s s' halt e = go (apply fuel a.command a.at (cleared s.turn)) refl e
  where
    go :
        (o : Option (Result EngineError (Unit {0}) × Turn))
        → apply fuel a.command a.at (cleared s.turn) ≡ o
        → answered a s o ≡ some (some halt, s')
        → Refusal fuel (a ∷ rest) s s'
    go none q e = absurd (ground (arith, e))
    go (some (outcome, turn)) q e =
        let entry : LogEntry = record {
          sequence = s.sequence;
          at = a.at;
          command = a.command;
          outcome = outcome;
        } in
        elim (Bool-cases (a.recorded entry)) [
          | inl y ↦ absurd (ground (arith, e, y))
          | inr n ↦
              let same : record s { turn = turn } ≡ s' = ground (arith, e, n) in
              rw (← same) (record {
                before = [];
                last = a;
                after = rest;
                order = refl;
                reached = s;
                ran = refl;
                answer = outcome;
                applied = q;
                refused = n;
                unlogged = refl;
              })
        ]

run-Refusal :
    (fuel : ℕ) (arrivals : List Arrival) (s s' : Round)
    → run_engine fuel arrivals s ≡ some (log_unrecordable, s')
    → Refusal fuel arrivals s s'
unfolding run_engine
run-Refusal fuel [] s s' e = absurd (ground (arith, e))
run-Refusal fuel (a ∷ rest) s s' e = go (serve fuel a s) (λ s1. run-Refusal fuel rest s1 s') refl e
  where
    go :
        (o : Option (Option HaltReason × Round))
        → ((s1 : Round)
            → run_engine fuel rest s1 ≡ some (log_unrecordable, s')
            → Refusal fuel rest s1 s')
        → serve fuel a s ≡ o
        → go_on o (λ s1. run_engine fuel rest s1) ≡ some (log_unrecordable, s')
        → Refusal fuel (a ∷ rest) s s'
    go none later q e = absurd (ground (arith, e))
    go (some (some halt, s1)) later q e =
        let same : s1 ≡ s' = ground (arith, e) in
        rw (← same) (serve-Refusal fuel a rest s s1 halt q)
    go (some (none, s1)) later q e =
        let u = later s1 e in
        record {
          before = a ∷ u.before;
          last = u.last;
          after = u.after;
          order = ap (λ xs. a ∷ xs) u.order;
          reached = u.reached;
          ran = ap (λ o. go_on o (λ s2. run_engine fuel u.before s2)) q ∙ u.ran;
          answer = u.answer;
          applied = u.applied;
          refused = u.refused;
          unlogged = u.unlogged;
        }

-- Where a round halts because the log takes no further entry, one of the commands received was carried
-- out on the turn that the commands before it, all of them recorded, had led to; its entry is the one that the
-- log refused, and the turn it left is the one the round ended with. The log, replayed from the same configuration
-- with a buffer of the same size, gives the engine as it was before that command.
pub unrecorded_applied :
    (fuel : ℕ) (config : Config) (room : ℕ) (e : Engine) (arrivals : List Arrival) (s : Round)
    → new_engine config ≡ ok (some e)
    → run_engine fuel arrivals (new_round e room) ≡ some (log_unrecordable, s)
    → (u : Refusal fuel arrivals (new_round e room) s) × (replay fuel config s.log room
        ≡ ok (some u.reached.turn.engine))
unrecorded_applied fuel config room e arrivals s made ran =
    let u = run-Refusal fuel arrivals (new_round e room) s ran in
    (
      u,
      ap (λ log. replay fuel config log room) u.unlogged
          ∙ replay-run_engine fuel config room e u.before u.reached made u.ran,
    )
