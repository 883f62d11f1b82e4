-- ===== src/Core/Tests/Venue.antt =====
-- The theorems on the engine of crates/core, applied to a small venue.
use rfq_matching_settlement.Prelude.{
  ◌≡◌, ◌≢◌, refl, Bool, true, false, Option, none, some, List, [], ◌∷◌, arith,
}
use rfq_matching_settlement.Prelude.Result.{Result, ok}
use rfq_matching_settlement.Prelude.Process
use rfq_matching_settlement.Prelude.Process.{◌>>=◌, ◌>>◌}
use rfq_matching_settlement.Core.Types.{
  Ts, yes_side, size_mul, requester_contribution, maker_contribution,
}
use rfq_matching_settlement.Core.Config.{default_config}
use rfq_matching_settlement.Core.Contract.{
  Contract, unresolved, resolved, silent, final, yes_outcome, no_outcome, may_report,
  set_oracle_status,
}
use rfq_matching_settlement.Core.Command.{
  Command, LegSpec, submit_request, reject_request, submit_quote, report_oracle_status,
  accept_request,
}
use rfq_matching_settlement.Core.Slab
use rfq_matching_settlement.Core.Slab.{Handle, Slab, fresh_slots, nil}
use rfq_matching_settlement.Core.Account.{empty_balance}
use rfq_matching_settlement.Core.Request.{settling, rejected, legs, leg_at, write_leg, nonce_of}
use rfq_matching_settlement.Core.Selection.{
  quote_at, visit, scan, verdict, best_on_leg, standing_from, standing_quote_of, walk_from,
  walk_leg,
}
use rfq_matching_settlement.Core.Event.{new_buffer, headroom, push}
use rfq_matching_settlement.Core.Ledger.{
  Ledger, update_account, set_owner_claim, check_reservable, record_oracle_status,
}
use rfq_matching_settlement.Core.Ledger.Chains.{
  reservation_at, touch, splice_after, splice_at_head, find_after, link_into_expiry_chain,
  unlink_from_chain, link_into_committed_list,
}
use rfq_matching_settlement.Core.Ledger.Admission.{
  link_claim, take_claim, open_quote_reserving, open_request_reserving,
}
use rfq_matching_settlement.Core.Ledger.Phase.{
  reclaim, reclaim_from, release_expired, phase_release, phase_commit, phase_close_quote,
}
use rfq_matching_settlement.Core.Engine.{
  EngineError, Turn, ledger_of, check_headroom, run_ledger, planned, update_request, update_quote,
  contract_at,
}
use rfq_matching_settlement.Core.Engine.Legs.{
  request_leg, update_leg, link_quote, unlink_from, unlink_quote, publish_selection,
}
use rfq_matching_settlement.Core.Engine.Release
use rfq_matching_settlement.Core.Engine.Release.{
  without, release_found, release_all, release_leg, release_legs, spent_quotes, close_all,
  close_consumed_quotes,
}
use rfq_matching_settlement.Core.Engine.Terms.{add_leg, add_legs}
use rfq_matching_settlement.Core.Engine.Submit
use rfq_matching_settlement.Core.Engine.Offer
use rfq_matching_settlement.Core.Engine.Offer.{replace, admit}
use rfq_matching_settlement.Core.Engine.Plan.{
  fill_leg, plan_leg, plan_legs, plan_accept, intend_leg, intend_legs, build_intent,
}
use rfq_matching_settlement.Core.Engine.Accept
use rfq_matching_settlement.Core.Engine.Accept.{claimed_amount, consume, settle_legs}
use rfq_matching_settlement.Core.Engine.Resolve
use rfq_matching_settlement.Core.Engine.Apply.{
  touched_accounts, normalise_all, normalise, dispatch, apply,
}
use rfq_matching_settlement.Core.Engine.Frame.{state_at}
use rfq_matching_settlement.Core.Engine.Lifecycle.{Advances}
use rfq_matching_settlement.Core.Engine.Lifecycle.Histories.{
  apply-Advances, Reachable, begins, serves, terminal_for_ever, request_kept, outcome_fixed,
}

abbrev pub tables : Ledger
tables = record {
  accounts =
      record empty_balance { free = 100000000 } ∷ record empty_balance { free = 100000000 } ∷ [];
  contracts =
      some (record { event_date = 9000000; state = unresolved; oracle_status = silent }) ∷ [];
  reservations = record { slots = fresh_slots 4 0 4; free_head = 0; live = 0 };
  requests = record { slots = fresh_slots 2 0 2; free_head = 0; live = 0 };
  quotes = record { slots = fresh_slots 3 0 3; free_head = 0; live = 0 };
}

abbrev pub start : Turn
start = record {
  engine = record { config = default_config; ledger = tables; next_arrival = 0 };
  buffer = new_buffer 32;
}

abbrev pub request : Handle
request = record { index = 0; generation = 0 }

abbrev pub leg_slots : List LegSpec
leg_slots = record { contract = 0; side = yes_side; size = 10; limit = 500000 } ∷ []

-- What a command leaves, and an engine with a drained buffer.
abbrev pub after : Command → Ts → Turn → Turn
after c now t = elim (apply 4 c now t) [ none ↦ t | some (r, u) ↦ u ]

abbrev pub answer : Command → Ts → Turn → Result EngineError (Unit {0})
answer c now t = elim (apply 4 c now t) [ none ↦ ok tt | some (r, u) ↦ r ]

abbrev pub ends : {A : Type 0} → Option A → Bool
ends none = false
ends (some a) = true

pub answers :
    (c : Command) (now : Ts) (t : Turn)
    → ends (apply 4 c now t) ≡ true
    → apply 4 c now t ≡ some (answer c now t, after c now t)
answers c now t = go (apply 4 c now t)
  where
    go :
        (o : Option (Result EngineError (Unit {0}) × Turn))
        → ends o ≡ true
        → o
          ≡ some (elim o [ none ↦ ok tt | some (r, u) ↦ r ], elim o [ none ↦ t | some (r, u) ↦ u ])
    go none e = absurd (ground (arith, e))
    go (some p) e = refl

abbrev pub drained : Turn → Turn
drained t = record t { buffer = new_buffer 32 }

abbrev pub asked : Turn
asked = drained (after (submit_request 0 200 leg_slots 1) 100 start)

abbrev pub quoted : Turn
quoted = drained (after (submit_quote 1 request 0 400000 10 150) 110 asked)

abbrev pub accepting : Command
accepting = accept_request request (record { leg = 0; price = 400000 } ∷ []) 1

abbrev pub refused : Turn
refused = drained (after (reject_request request) 120 quoted)

abbrev pub told : Turn
told = drained (after (report_oracle_status 0 (final yes_outcome)) 130 start)

abbrev resolved_contract : Contract
resolved_contract = record {
  event_date = 9000000;
  state = resolved yes_outcome;
  oracle_status = final yes_outcome;
}

runs :
    (ends (apply 4 accepting 120 quoted) ≡ true)
    × (ends (apply 4 accepting 120 refused) ≡ true)
    × (ends (apply 4 (report_oracle_status 0 (final no_outcome)) 140 told) ≡ true)
    × (state_at request (ledger_of refused) ≡ some rejected)
    × (contract_at 0 (ledger_of told) ≡ some resolved_contract)
    × (answer accepting 120 quoted ≡ ok tt)
    × (state_at request (ledger_of (after accepting 120 quoted))
        ≡ some (settling (nonce_of request) 60120))
unfolding apply normalise dispatch touched_accounts normalise_all release_expired reclaim_from
    reclaim Submit.submit_request add_legs add_leg size_mul Process.◌>>=◌ Process.◌>>◌ Process.gets
    Process.err_if Process.ok_or Process.lift Process.modify Process.change Process.run_pure
    check_headroom headroom run_ledger planned open_request_reserving open_quote_reserving
    check_reservable take_claim link_claim link_into_expiry_chain find_after splice_at_head
    splice_after touch update_account set_owner_claim Slab.insert Slab.modify Slab.get
    Slab.handle_at Slab.remove push default_config fresh_slots state_at reservation_at
    Offer.submit_quote leg_at legs write_leg standing_quote_of standing_from quote_at
    maker_contribution replace admit link_quote update_leg update_quote update_request request_leg
    publish_selection best_on_leg scan visit verdict Accept.accept_request plan_accept plan_legs
    plan_leg fill_leg requester_contribution claimed_amount build_intent intend_legs intend_leg
    settle_legs release_leg walk_leg walk_from without release_all release_found phase_release
    phase_commit unlink_quote unlink_from phase_close_quote consume link_into_committed_list
    unlink_from_chain Release.reject_request release_legs Resolve.report_oracle_status
    record_oracle_status may_report set_oracle_status
runs = (refl, refl, refl, refl, refl, refl, refl)

apply-Advances_example : Advances (ledger_of quoted) (ledger_of (after accepting 120 quoted))
apply-Advances_example =
    apply-Advances 4 accepting 120 quoted (after accepting 120 quoted) (answer accepting 120 quoted)
      (answers accepting 120 quoted runs.0)

refused_then : Reachable 4 refused.engine (after accepting 120 refused).engine
refused_then =
    serves refused (after accepting 120 refused) accepting 120 (answer accepting 120 refused) begins
      (answers accepting 120 refused runs.1)

terminal_for_ever_example :
    state_at request (ledger_of (after accepting 120 refused)) ≡ some rejected
terminal_for_ever_example =
    terminal_for_ever 4 refused.engine (after accepting 120 refused).engine request rejected
      refused_then refl runs.3

resolves : state_at request (ledger_of refused) ≢ none
resolves = λ gone. ground (arith, gone, runs.3)

request_kept_example : state_at request (ledger_of (after accepting 120 refused)) ≢ none
request_kept_example =
    request_kept 4 refused.engine (after accepting 120 refused).engine request refused_then resolves

outcome_fixed_example :
    contract_at 0 (ledger_of (after (report_oracle_status 0 (final no_outcome)) 140 told))
    ≡ some resolved_contract
outcome_fixed_example =
    outcome_fixed 4 told.engine (after (report_oracle_status 0 (final no_outcome)) 140 told).engine
      0 resolved_contract yes_outcome
      (serves told (after (report_oracle_status 0 (final no_outcome)) 140 told)
        (report_oracle_status 0 (final no_outcome)) 140
        (answer (report_oracle_status 0 (final no_outcome)) 140 told) begins
        (answers (report_oracle_status 0 (final no_outcome)) 140 told runs.2))
      runs.4 refl
