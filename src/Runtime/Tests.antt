-- ===== src/Runtime/Tests.antt =====
-- The theorems on crates/runtime, applied to concrete inputs.
use mathlib.Core.Option.{Option}
use rfq_matching_settlement.Prelude.{
  false, ◌≡◌, true, refl, none, some, List, [], ◌∷◌, ◌++◌, length, get_elem?, arith,
}
use rfq_matching_settlement.Core.Types.{yes_side}
use rfq_matching_settlement.Core.Slab.{Handle}
use rfq_matching_settlement.Core.Settlement.{Nonce}
use rfq_matching_settlement.Core.Event.{IntentLeg, submit_intent, drain_events, clear_events}
use rfq_matching_settlement.Chain.Bundle.{Bundle, BundleLeg, legs}
use rfq_matching_settlement.Runtime.Settlement.{bundle_from}
use rfq_matching_settlement.Runtime.Settlement.Legs.{HasTerms, bundle_from-legs}
use rfq_matching_settlement.Prelude.Process
use rfq_matching_settlement.Prelude.Result.{ok, err}
use rfq_matching_settlement.Core.Command.{register_contract}
use rfq_matching_settlement.Core.Types.{Ts}
use rfq_matching_settlement.Core.Config.{Config, validate, default_config}
use rfq_matching_settlement.Core.Command.{Command, credit_account}
use rfq_matching_settlement.Core.Account.{empty_balance}
use rfq_matching_settlement.Core.Slab.{Slab, with_capacity, fresh_slots}
use rfq_matching_settlement.Core.Ledger
use rfq_matching_settlement.Core.Ledger.{new_tables}
use rfq_matching_settlement.Core.Ledger.Phase.{release_expired}
use rfq_matching_settlement.Core.Engine.{Engine, new_engine, run_ledger}
use rfq_matching_settlement.Core.Engine.Apply.{apply, dispatch}
use rfq_matching_settlement.Runtime.Venue.{
  HaltReason, channel_closed, log_unrecordable, Arrival, Round, new_round, run_engine, serve,
  send_events, replay,
}
use rfq_matching_settlement.Runtime.Venue.Replay.{replay-run_engine}
use rfq_matching_settlement.Runtime.Venue.Unrecorded.{Refusal, unrecorded_applied}
use rfq_matching_settlement.Runtime.Gateway.{
  ContractRef, describe, Gateway, new_gateway, contract_index, registry_unavailable,
}
use rfq_matching_settlement.Runtime.Gateway.Interning.{
  IsNamed, contract_index-describe, contract_unannounced,
}

abbrev request : Handle
request = record { index = 0; generation = 7 }

abbrev nonce : Nonce
nonce = record { request = 0; generation = 7 }

abbrev filled : List IntentLeg
filled =
    record {
      contract = 2;
      side = yes_side;
      size = 10;
      maker = 1;
      fill_price = 400000;
      quote_expiry = 150;
    }
    ∷ []

abbrev second : IntentLeg
second = record {
  contract = 5;
  side = yes_side;
  size = 20;
  maker = 4;
  fill_price = 300000;
  quote_expiry = 160;
}

bundle_from-legs_example :
    (b : Bundle) × (bundle_from (submit_intent request nonce 3 (filled ++ second ∷ []) 2) ≡ some b)
    × (b.nonce ≡ nonce)
    × (b.requester ≡ 3)
    × (length (legs b) ≡ 2)
    × (y : BundleLeg) × (get_elem? (legs b) 1 ≡ some y)
    × HasTerms second y
bundle_from-legs_example =
    bundle_from-legs request nonce 3 (filled ++ second ∷ []) 2 1 second (omega arith) (omega arith)
      (omega arith) refl

abbrev reference : ContractRef
reference = record { description = 82 ∷ 65 ∷ []; event_date = 9000; resolution_source = 78 ∷ [] }

abbrev empty : Gateway
empty = new_gateway 4 4

abbrev asked : Gateway
asked = (contract_index reference empty).1

empty-IsNamed : IsNamed empty
empty-IsNamed = record { described = λ other k e. absurd (ground (arith, e)); counted = refl }

asks : contract_index reference empty ≡ (ok (0, some (register_contract 0 9000)), asked)
unfolding contract_index
asks = refl

contract_index-describe_example :
    IsNamed asked
    × (describe asked.registry 0 ≡ some reference)
    × (contract_index reference asked ≡ (ok (0, none), asked))
contract_index-describe_example =
    contract_index-describe reference empty asked 0 (some (register_contract 0 9000)) empty-IsNamed
      (omega arith) asks

abbrev broken : Gateway
broken = record empty { registry = record empty.registry { poisoned = true } }

contract_unannounced_example :
    (g' : Gateway) × (contract_index reference broken ≡ (err registry_unavailable, g'))
    × (contract_index reference g' ≡ (ok (0, none), g'))
contract_unannounced_example = contract_unannounced reference broken refl (ground arith) refl

abbrev small : Config
small = record default_config {
  max_accounts = 1;
  max_contracts = 1;
  max_reservations = 1;
  max_requests = 1;
  max_quotes = 1;
}

abbrev one_slot : {A : Type 0} → Slab A
one_slot = record { slots = fresh_slots 1 0 1; free_head = 0; live = 0 }

abbrev opened : Engine
opened = record {
  config = small;
  ledger = record {
    accounts = empty_balance ∷ [];
    contracts = none ∷ [];
    reservations = one_slot;
    requests = one_slot;
    quotes = one_slot;
  };
  next_arrival = 0;
}

opens : new_engine small ≡ ok (some opened)
unfolding new_engine validate new_tables with_capacity fresh_slots default_config
opens = refl

abbrev arrival : Command → Ts → Arrival
arrival c now = record {
  command = c;
  at = now;
  recorded = λ entry. true;
  delivered = λ event. false;
}

abbrev arrivals : List Arrival
arrivals = arrival (credit_account 0 500) 10 ∷ arrival (register_contract 0 9000) 20 ∷ []

abbrev round_of : Option (HaltReason × Round) → Round
round_of none = new_round opened 4
round_of (some (halt, s)) = s

abbrev round : Round
round = round_of (run_engine 2 arrivals (new_round opened 4))

ends_so :
    (run_engine 2 arrivals (new_round opened 4) ≡ some (channel_closed, round))
    × (length round.log ≡ 2)
unfolding run_engine serve apply dispatch Process.◌>>◌ Process.◌>>=◌ Process.change release_expired
    run_ledger send_events drain_events clear_events
ends_so = (refl, refl)

replay-run_engine_example : replay 2 small round.log 4 ≡ ok (some round.turn.engine)
replay-run_engine_example = replay-run_engine 2 small 4 opened arrivals round opens ends_so.0

-- The log takes the first entry and refuses the second.
abbrev full : List Arrival
full =
    arrival (credit_account 0 500) 10
    ∷ record (arrival (credit_account 0 700) 20) { recorded = λ entry. false }
    ∷ []

abbrev stopped : Round
stopped = round_of (run_engine 2 full (new_round opened 4))

stops : run_engine 2 full (new_round opened 4) ≡ some (log_unrecordable, stopped)
unfolding run_engine serve apply dispatch Process.◌>>◌ Process.◌>>=◌ Process.change release_expired
    run_ledger send_events drain_events clear_events Ledger.apply_mirror_update
stops = refl

unrecorded_applied_example :
    (u : Refusal 2 full (new_round opened 4) stopped) × (replay 2 small stopped.log 4
      ≡ ok (some u.reached.turn.engine))
unrecorded_applied_example = unrecorded_applied 2 small 4 opened full stopped opens stops
