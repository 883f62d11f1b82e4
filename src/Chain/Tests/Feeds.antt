-- ===== src/Chain/Tests/Feeds.antt =====
-- The theorems on the oracle and the indexer of crates/chain, applied to concrete inputs.
use rfq_matching_settlement.Prelude.{
  ℕ, ◌+◌, ◌-◌, ◌≡◌, refl, List, [], ◌∷◌, arith, some, ltb, map, if◌then◌else◌,
}
use rfq_matching_settlement.Prelude.Result.{ok}
use rfq_matching_settlement.Core.Contract.{yes_outcome, no_outcome, in_progress}
use rfq_matching_settlement.Chain.Log.{ChainLog, ChainEvent, balance_changed}
use rfq_matching_settlement.Chain.Oracle.{Oracle, status, propose, contested}
use rfq_matching_settlement.Chain.Oracle.Histories.{
  OracleCall, proposes, contests, finalises, escalates, run, Forward, run-Forward,
}
use rfq_matching_settlement.Chain.Oracle.Window.{contested_waits, challenge_window_enforced}
use rfq_matching_settlement.Chain.Oracle.{lookup}
use rfq_matching_settlement.Chain.Indexer.{Indexer, rewind, drain, translate, skip}
use rfq_matching_settlement.Chain.Indexer.Replay.{replay_silent, drain_all, confirmed}

abbrev oracle : Oracle
oracle = record { challenge_window = 7; escalation_authority = 0; contracts = [] }

abbrev calls : List OracleCall
calls = contests 4 ∷ finalises 4 20 ∷ escalates 4 no_outcome 9 ∷ escalates 5 no_outcome 0 ∷ []

run-Forward_example :
    Forward (status oracle 4) (status (run (proposes 4 yes_outcome 2 ∷ calls) oracle) 4)
run-Forward_example = run-Forward (proposes 4 yes_outcome 2 ∷ calls) oracle 4

abbrev disputed : Oracle
disputed = record oracle { contracts = (4, contested) ∷ [] }

contested_waits_example :
    (lookup 4 (run calls disputed).contracts ≡ some contested)
    × (status (run calls disputed) 4 ≡ in_progress)
contested_waits_example =
    contested_waits calls disputed 4 refl
      (tt, (tt, ((λ e. λ f. omega arith), ((λ e. omega arith), tt))))

proposal : propose 4 yes_outcome 2 oracle ≡ (ok 9, (propose 4 yes_outcome 2 oracle).1)
unfolding propose
proposal = refl

abbrev early_calls : List OracleCall
early_calls = finalises 4 8 ∷ proposes 4 no_outcome 8 ∷ []

challenge_window_enforced_example :
    (9 ≡ 2 + 7) × (status (run early_calls (propose 4 yes_outcome 2 oracle).1) 4 ≡ in_progress)
challenge_window_enforced_example =
    challenge_window_enforced 4 yes_outcome 2 9 oracle (propose 4 yes_outcome 2 oracle).1
      early_calls proposal (tt, (tt, tt)) ((λ e. omega arith), (tt, tt))

abbrev entry : ℕ → ℕ → ℕ → ChainEvent
entry block tx index = record {
  block = block;
  tx_hash = tx ∷ [];
  log_index = index;
  payload = balance_changed 1 tx;
}

abbrev log : ChainLog
log = record { entries = entry 0 0 0 ∷ entry 0 1 0 ∷ entry 2 2 0 ∷ []; head = 2; next_tx = 3 }

abbrev patient : Indexer
patient = record { cursor = 0; confirmations = 1; delivered = [] }

replay_silent_example : (drain log (rewind (drain log patient).1)).0 ≡ []
replay_silent_example = replay_silent log patient refl

drain_all_example :
    (drain log patient).0
    ≡ (if ltb 2 1 then [] else map translate (confirmed (2 - 1) (skip 0 log.entries)))
drain_all_example = drain_all log patient (refl, (refl, (refl, tt)))
