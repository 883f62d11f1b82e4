-- ===== src/Core/Tests/Books.antt =====
-- The theorem on the books of the engine of crates/core, applied to a small venue.
use rfq_matching_settlement.Prelude.{zero, suc, ◌≡◌, refl, true, Option, none, some, arith}
use rfq_matching_settlement.Prelude.Result.{Result, ok}
use rfq_matching_settlement.Prelude.Process
use rfq_matching_settlement.Prelude.Process.{◌>>=◌, ◌>>◌}
use rfq_matching_settlement.Core.Types.{size_mul}
use rfq_matching_settlement.Core.Config.{default_config}
use rfq_matching_settlement.Core.Command.{Command, submit_request}
use rfq_matching_settlement.Core.Slab
use rfq_matching_settlement.Core.Slab.{Slab, fresh_slots}
use rfq_matching_settlement.Core.Event.{headroom, push}
use rfq_matching_settlement.Core.Ledger
use rfq_matching_settlement.Core.Ledger.{update_account, set_owner_claim, check_reservable}
use rfq_matching_settlement.Core.Ledger.Chains.{
  reservation_at, touch, splice_after, splice_at_head, find_after, link_into_expiry_chain,
}
use rfq_matching_settlement.Core.Ledger.Admission.{link_claim, take_claim, open_request_reserving}
use rfq_matching_settlement.Core.Ledger.Tallies.{Tallied}
use rfq_matching_settlement.Core.Ledger.Sound.{IsSound}
use rfq_matching_settlement.Core.Engine.{EngineError, Turn, ledger_of, run_ledger, check_headroom}
use rfq_matching_settlement.Core.Engine.Terms.{add_leg, add_legs}
use rfq_matching_settlement.Core.Engine.Submit
use rfq_matching_settlement.Core.Engine.Apply.{dispatch}
use rfq_matching_settlement.Core.Engine.Books.{dispatch-IsSound}
use rfq_matching_settlement.Core.Tests.Venue.{tables, start, leg_slots}

fresh-Tallied : Tallied tables
unfolding fresh_slots
fresh-Tallied zero e h = ground arith
fresh-Tallied (suc zero) e h = ground arith
fresh-Tallied (suc (suc a)) e h = ground arith

fresh-IsSound : IsSound tables
unfolding fresh_slots
fresh-IsSound = record { tallied = fresh-Tallied; owned = refl; bounded = λ a. omega arith }

abbrev asking : Command
asking = submit_request 0 200 leg_slots 1

abbrev outcome_of :
    Option (Result EngineError (Unit {0}) × Turn) → Result EngineError (Unit {0}) × Turn
outcome_of none = (ok tt, start)
outcome_of (some p) = p

found :
    (o : Option (Result EngineError (Unit {0}) × Turn))
    → Ledger.is_some o ≡ true
    → o ≡ some ((outcome_of o).0, (outcome_of o).1)
found none e = absurd (ground (arith, e))
found (some p) e = refl

abbrev asked : Option (Result EngineError (Unit {0}) × Turn)
asked = dispatch 4 asking 100 start

runs : (Ledger.is_some asked ≡ true) × (((ledger_of (outcome_of asked).1).requests).live ≡ 1)
unfolding dispatch Submit.submit_request add_legs add_leg size_mul Process.◌>>=◌ Process.◌>>◌
    Process.gets Process.err_if Process.ok_or Process.lift Process.modify headroom run_ledger
    open_request_reserving check_reservable take_claim link_claim link_into_expiry_chain find_after
    splice_at_head splice_after touch update_account set_owner_claim Slab.insert Slab.modify
    Slab.get Slab.handle_at push default_config fresh_slots reservation_at check_headroom
runs = (refl, refl)

dispatch-IsSound_example : IsSound (ledger_of (outcome_of asked).1)
dispatch-IsSound_example =
    dispatch-IsSound 4 asking 100 start (outcome_of asked).1 (outcome_of asked).0 refl fresh-IsSound
      (found asked runs.0)
