-- ===== src/Core/Tests/Handlers.antt =====
-- The theorems on single handlers of the engine of crates/core, applied to a small venue.
use rfq_matching_settlement.Prelude.{
  ℕ, ◌≡◌, ◌↔◌, refl, ap, Bool, true, false, Option, none, some, List, [], ◌∷◌, ◌++◌, ◌∙◌, ◌<◌,
  arith,
}
use rfq_matching_settlement.Prelude.Result.{Result, ok, err}
use rfq_matching_settlement.Prelude.Process
use rfq_matching_settlement.Prelude.Process.{◌>>=◌, ◌>>◌}
use rfq_matching_settlement.Core.Types.{
  yes_side, size_mul, requester_contribution, maker_contribution,
}
use rfq_matching_settlement.Core.Config.{default_config}
use rfq_matching_settlement.Core.Contract.{yes_outcome, no_outcome, may_report, set_oracle_status}
use rfq_matching_settlement.Core.Command.{LegSpec, ExpectedFill, credit_account}
use rfq_matching_settlement.Core.Settlement.{pending}
use rfq_matching_settlement.Core.Slab
use rfq_matching_settlement.Core.Slab.{Handle, Slab, fresh_slots, nil, occupied}
use rfq_matching_settlement.Core.Request.{settling, legs, leg_at, write_leg, nonce_of}
use rfq_matching_settlement.Core.Selection.{
  quote_at, visit, scan, verdict, best_on_leg, standing_from, standing_quote_of, walk_from,
  walk_leg,
}
use rfq_matching_settlement.Core.Event.{new_buffer, headroom, push, settlement_stalled}
use rfq_matching_settlement.Core.Ledger
use rfq_matching_settlement.Core.Ledger.{
  Ledger, update_account, set_owner_claim, check_reservable, record_oracle_status,
}
use rfq_matching_settlement.Core.Ledger.Chains.{
  reservation_at, touch, splice_after, splice_at_head, find_after, link_into_expiry_chain,
  unlink_from_chain, link_into_committed_list,
}
use rfq_matching_settlement.Core.Ledger.Admission.{
  link_claim, take_claim, open_quote_reserving, open_request_reserving,
}
use rfq_matching_settlement.Core.Ledger.Phase.{
  reclaim, reclaim_from, release_expired, phase_release, phase_commit, phase_close_quote,
}
use rfq_matching_settlement.Core.Engine.{
  EngineError, Turn, ledger_of, check_headroom, run_ledger, planned, update_request, update_quote,
}
use rfq_matching_settlement.Core.Engine.Legs.{
  request_leg, update_leg, link_quote, unlink_from, unlink_quote, publish_selection,
}
use rfq_matching_settlement.Core.Engine.Release
use rfq_matching_settlement.Core.Engine.Release.{
  without, release_found, release_all, release_leg, release_legs, spent_quotes, close_all,
  close_consumed_quotes,
}
use rfq_matching_settlement.Core.Engine.Terms.{add_leg, add_legs}
use rfq_matching_settlement.Core.Engine.Submit
use rfq_matching_settlement.Core.Engine.Offer
use rfq_matching_settlement.Core.Engine.Offer.{replace, admit}
use rfq_matching_settlement.Core.Engine.Plan.{
  fill_leg, plan_leg, plan_legs, plan_accept, intend_leg, intend_legs, build_intent,
}
use rfq_matching_settlement.Core.Engine.Accept
use rfq_matching_settlement.Core.Engine.Accept.{claimed_amount, consume, settle_legs}
use rfq_matching_settlement.Core.Engine.Poll
use rfq_matching_settlement.Core.Engine.Poll.{
  resolve_nonce, quotes_of, notify_failed, settle_request, fail_request, act_on,
}
use rfq_matching_settlement.Core.Engine.Resolve
use rfq_matching_settlement.Core.Engine.Apply.{
  touched_accounts, normalise_all, normalise, dispatch, apply,
}
use rfq_matching_settlement.Core.Engine.Frame.{state_at}
use rfq_matching_settlement.Core.Request.{Request, new_leg, new_request, Leg}
use rfq_matching_settlement.Core.Slab.Free.{IsWell}
use rfq_matching_settlement.Core.Event.{Event, settle_intent}
use rfq_matching_settlement.Core.Event.Room.{push_all, push_all-headroom}
use rfq_matching_settlement.Core.Engine.Poll.Waiting.{resolve_nonce-nonce_of, poll_undecided}
use rfq_matching_settlement.Core.Engine.Submit.Refused.{submit_request-atomic}
use rfq_matching_settlement.Core.Engine.Offer.Replacing.{replacement_lost}
use rfq_matching_settlement.Core.Engine.Plan.{Plan, no_plan}
use rfq_matching_settlement.Core.Engine.Plan.Fills.{IsFilled, cost, plan_accept-IsFilled}
use rfq_matching_settlement.Core.Ledger.{insufficient_free}
use rfq_matching_settlement.Core.Engine.{ledger_refused}
use rfq_matching_settlement.Core.Tests.Venue.{tables, start, request, after, drained, quoted}

abbrev notices : List Event
notices = settle_intent 3 0 yes_outcome ∷ settle_intent 4 0 no_outcome ∷ []

roomy : headroom 2 (new_buffer 2) ≡ ok tt
unfolding headroom
roomy = refl

push_all-headroom_example : (push_all notices (new_buffer 2)).events ≡ [] ++ notices
push_all-headroom_example = push_all-headroom 2 notices (new_buffer 2) roomy (omega arith)

-- A request that stands in its slot.
abbrev standing : Request
standing = record (new_request 0 200 (new_leg 0 yes_side 10 500000 ∷ []) 1) {
  state = settling (nonce_of request) 60120;
}

abbrev books : Ledger
books = record tables {
  requests = record {
    slots = record { generation = 0; state = occupied standing } ∷ [];
    free_head = nil;
    live = 1;
  };
}

stands : Slab.get books.requests request ≡ some standing
unfolding Slab.get
stands = refl

resolve_nonce-nonce_of_example :
    (resolve_nonce (nonce_of request) books ≡ some request) ↔ (nonce_of request ≡ nonce_of request)
resolve_nonce-nonce_of_example =
    resolve_nonce-nonce_of books request standing (nonce_of request) stands

abbrev polled : Turn
polled = record start { engine = record start.engine { ledger = books } }

-- Past the deadline, an alert goes out.
abbrev alerted : Turn
alerted = record polled {
  buffer = push (settlement_stalled request (nonce_of request) pending) polled.buffer;
}

polls : Poll.poll_settlement (nonce_of request) pending 70000 polled ≡ some (ok tt, alerted)
unfolding Poll.poll_settlement act_on resolve_nonce Slab.handle_at Slab.get Process.◌>>=◌
    Process.◌>>◌ Process.gets Process.ok_or Process.err_if Process.modify check_headroom headroom
    push
polls = refl

poll_undecided_example : alerted.engine ≡ polled.engine
poll_undecided_example =
    poll_undecided (nonce_of request) pending 70000 polled alerted (ok tt) refl polls

-- Well-formed empty slabs.
requests-IsWell : IsWell tables.requests (0 ∷ 1 ∷ [])
unfolding fresh_slots
requests-IsWell = record {
  head = refl;
  chained = (refl, (refl, tt));
  distinct = (((λ e. omega arith), tt), (tt, tt));
  counted = refl;
  small = omega arith;
}

reservations-IsWell : IsWell tables.reservations (0 ∷ 1 ∷ 2 ∷ 3 ∷ [])
unfolding fresh_slots
reservations-IsWell = record {
  head = refl;
  chained = (refl, (refl, (refl, (refl, tt))));
  distinct = (
    ((λ e. omega arith), ((λ e. omega arith), ((λ e. omega arith), tt))),
    (((λ e. omega arith), ((λ e. omega arith), tt)), (((λ e. omega arith), tt), (tt, tt))),
  );
  counted = refl;
  small = omega arith;
}

abbrev too_large : List LegSpec
too_large = record { contract = 0; side = yes_side; size = 1000; limit = 500000 } ∷ []

declined :
    Submit.submit_request 4 0 200 too_large 1 100 start
    ≡ some (err (ledger_refused insufficient_free), start)
unfolding Submit.submit_request add_legs add_leg size_mul Process.◌>>=◌ Process.◌>>◌ Process.gets
    Process.err_if Process.ok_or Process.lift Process.modify check_headroom headroom run_ledger
    open_request_reserving check_reservable default_config
declined = refl

submit_request-atomic_example : start ≡ start
submit_request-atomic_example =
    submit_request-atomic 4 0 200 too_large 1 100 start start (0 ∷ 1 ∷ []) (0 ∷ 1 ∷ 2 ∷ 3 ∷ [])
      (ledger_refused insufficient_free) requests-IsWell reservations-IsWell declined

-- What an option holds, where it holds something.
abbrev read : {A : Type 0} → Option A → A → A
read none d = d
read (some a) d = a

found : {A : Type 0} (o : Option A) (d : A) → Ledger.is_some o ≡ true → o ≡ some (read o d)
found none d e = absurd (ground (arith, e))
found (some a) d e = refl

-- The maker's balance covers the quote that stands and no more.
abbrev poor : Turn
poor = drained (after (credit_account 1 6000000) 115 quoted)

abbrev entry : Request
entry = read (Slab.get (ledger_of poor).requests request) standing

abbrev leg_entry : Leg
leg_entry = read (leg_at entry 0) (new_leg 0 yes_side 0 0)

abbrev old_quote : Handle
old_quote = record { index = 0; generation = 0 }

abbrev attempt : Option (Result EngineError (Unit {0}) × Turn)
attempt = Offer.submit_quote 4 1 request 0 300000 10 150 120 poor

abbrev left : Turn
left = (read attempt (ok tt, poor)).1

runs :
    (Ledger.is_some (Slab.get (ledger_of poor).requests request) ≡ true)
    × (Ledger.is_some (leg_at entry 0) ≡ true)
    × (standing_quote_of 4 (ledger_of poor).quotes leg_entry 1 ≡ some (some old_quote))
    × (Ledger.is_some attempt ≡ true)
    × ((read attempt (ok tt, poor)).0 ≡ err (ledger_refused insufficient_free))
    × (Ledger.is_some (Slab.get (ledger_of poor).quotes old_quote) ≡ true)
unfolding apply normalise dispatch touched_accounts normalise_all release_expired reclaim_from
    reclaim Submit.submit_request add_legs add_leg size_mul Process.◌>>=◌ Process.◌>>◌ Process.gets
    Process.err_if Process.ok_or Process.lift Process.modify Process.change Process.run_pure
    check_headroom headroom run_ledger planned open_request_reserving open_quote_reserving
    check_reservable take_claim link_claim link_into_expiry_chain find_after splice_at_head
    splice_after touch update_account set_owner_claim Slab.insert Slab.modify Slab.get
    Slab.handle_at Slab.remove push default_config fresh_slots state_at reservation_at
    Offer.submit_quote leg_at legs write_leg standing_quote_of standing_from quote_at
    maker_contribution replace admit link_quote update_leg update_quote update_request request_leg
    publish_selection best_on_leg scan visit verdict Accept.accept_request plan_accept plan_legs
    plan_leg fill_leg requester_contribution claimed_amount build_intent intend_legs intend_leg
    settle_legs release_leg walk_leg walk_from without release_all release_found phase_release
    phase_commit unlink_quote unlink_from phase_close_quote consume link_into_committed_list
    unlink_from_chain Release.reject_request release_legs Resolve.report_oracle_status
    record_oracle_status may_report set_oracle_status Ledger.apply_mirror_update
runs = (refl, refl, refl, refl, refl, refl)

attempted : attempt ≡ some (err (ledger_refused insufficient_free), left)
attempted = found attempt (ok tt, poor) runs.3 ∙ ap (λ r. some (r, left)) runs.4

replacement_lost_example : Slab.get (ledger_of left).quotes old_quote ≡ none
replacement_lost_example =
    replacement_lost 4 1 request 0 300000 10 150 120 poor left entry leg_entry old_quote
      (found (Slab.get (ledger_of poor).requests request) standing runs.0)
      (found (leg_at entry 0) (new_leg 0 yes_side 0 0) runs.1) runs.2 attempted

abbrev views : List ExpectedFill
views = record { leg = 0; price = 400000 } ∷ []

abbrev plan_of : Option (Result EngineError Plan) → Plan
plan_of none = no_plan
plan_of (some (err e)) = no_plan
plan_of (some (ok p)) = p

abbrev has_plan : Option (Result EngineError Plan) → Bool
has_plan none = false
has_plan (some (err e)) = false
has_plan (some (ok p)) = true

plan_found : (o : Option (Result EngineError Plan)) → has_plan o ≡ true → o ≡ some (ok (plan_of o))
plan_found none e = absurd (ground (arith, e))
plan_found (some (err x)) e = absurd (ground (arith, e))
plan_found (some (ok p)) e = refl

abbrev plans : Option (Result EngineError Plan)
plans = plan_accept 4 (ledger_of poor).quotes entry views 120

has : (has_plan plans ≡ true) × (entry.n_legs ≡ 1)
unfolding apply normalise dispatch touched_accounts normalise_all release_expired reclaim_from
    reclaim Submit.submit_request add_legs add_leg size_mul Process.◌>>=◌ Process.◌>>◌ Process.gets
    Process.err_if Process.ok_or Process.lift Process.modify Process.change Process.run_pure
    check_headroom headroom run_ledger planned open_request_reserving open_quote_reserving
    check_reservable take_claim link_claim link_into_expiry_chain find_after splice_at_head
    splice_after touch update_account set_owner_claim Slab.insert Slab.modify Slab.get
    Slab.handle_at Slab.remove push default_config fresh_slots state_at reservation_at
    Offer.submit_quote leg_at legs write_leg standing_quote_of standing_from quote_at
    maker_contribution replace admit link_quote update_leg update_quote update_request request_leg
    publish_selection best_on_leg scan visit verdict Accept.accept_request plan_accept plan_legs
    plan_leg fill_leg requester_contribution claimed_amount build_intent intend_legs intend_leg
    settle_legs release_leg walk_leg walk_from without release_all release_found phase_release
    phase_commit unlink_quote unlink_from phase_close_quote consume link_into_committed_list
    unlink_from_chain Release.reject_request release_legs Resolve.report_oracle_status
    record_oracle_status may_report set_oracle_status Ledger.apply_mirror_update
has = (refl, refl)

plan_accept-IsFilled_example :
    ((i : ℕ) → i < entry.n_legs → IsFilled entry views (plan_of plans).winners i)
    × ((plan_of plans).total ≡ cost (legs entry) (plan_of plans).winners entry.n_legs)
plan_accept-IsFilled_example =
    plan_accept-IsFilled 4 (ledger_of poor).quotes entry views 120 (plan_of plans)
      (omega (arith, has.1)) (plan_found plans has.0)
