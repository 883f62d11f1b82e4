-- ===== src/Core/Engine/Plan.antt =====
-- crates/core/src/engine.rs, `plan_accept` and `build_intent`: the pure part of an acceptance.
pub mod Fills
use rfq_matching_settlement.Prelude.{
  ℕ, zero, suc, ◌+◌, Option, none, some, List, get_elem?, set, replicate, ltb, ◌==◌, not,
}
use rfq_matching_settlement.Prelude.Result.{Result, ok, err, ok_or, err_if, ◌>>=◌, ◌>>◌}
use rfq_matching_settlement.Core.Types.{Amount, Ts, amount_add, requester_contribution}
use rfq_matching_settlement.Core.Config.{max_legs_bound}
use rfq_matching_settlement.Core.Command.{ExpectedFill}
use rfq_matching_settlement.Core.Slab
use rfq_matching_settlement.Core.Slab.{Slab}
use rfq_matching_settlement.Core.Quote.{Quote}
use rfq_matching_settlement.Core.Request.{Leg, Request, legs, Selection}
use rfq_matching_settlement.Core.Selection.{best_on_leg}
use rfq_matching_settlement.Core.Event.{IntentLeg, empty_intent_leg}
use rfq_matching_settlement.Core.Engine.{
  EngineError, unknown_leg, no_eligible_quote, leg_count_mismatch, presentation_stale,
  product_overflow, unknown_quote,
}

-- The local variables of the loop of `plan_accept`: a winner for each leg, and what the requester
-- pays.
pub record Plan : Type 0 where
  pub winners : List (Option Selection)
  pub total : Amount

abbrev pub no_plan : Plan
no_plan = record { winners = replicate max_legs_bound none; total = 0 }

-- One round, once the leg has a winner.
unfoldable pub fill_leg : Leg → ℕ → List ExpectedFill → Selection → Plan → Result EngineError Plan
unfolding requester_contribution
fill_leg g index expected best plan = do
  view ← ok_or (get_elem? expected index) leg_count_mismatch
  err_if (not (view.leg == index)) leg_count_mismatch
  err_if (ltb view.price best.price) (presentation_stale index view.price best.price)
  contribution ← ok_or (requester_contribution g.size best.price) product_overflow
  total ← ok_or (amount_add plan.total contribution) product_overflow
  ok (record { winners = set plan.winners index (some best); total = total })

unfoldable pub plan_leg :
    ℕ → Slab Quote → Request → List ExpectedFill → Ts → ℕ → Plan → Option (Result EngineError Plan)
unfolding legs fill_leg
plan_leg fuel quotes entry expected now index plan = elim (get_elem? (legs entry) index) [
  | none ↦ some (err unknown_leg)
  | some g ↦ elim (best_on_leg fuel quotes g now) [
    | none ↦ none
    | some r ↦ elim r [
      | err reason ↦ some (err (no_eligible_quote index reason))
      | ok best ↦ some (fill_leg g index expected best plan)
    ]
  ]
]

-- The loop of `plan_accept` over the legs `index ..`.
unfoldable pub plan_legs :
    ℕ
    → ℕ
    → ℕ
    → Slab Quote
    → Request
    → List ExpectedFill
    → Ts
    → Plan
    → Option (Result EngineError Plan)
unfolding plan_leg
plan_legs fuel zero index quotes entry expected now plan = some (ok plan)
plan_legs fuel (suc rounds) index quotes entry expected now plan =
    elim (plan_leg fuel quotes entry expected now index plan) [
      | none ↦ none
      | some r ↦ elim r [
        | err e ↦ some (err e)
        | ok more ↦ plan_legs fuel rounds (index + 1) quotes entry expected now more
      ]
    ]

-- `plan_accept`.
unfoldable pub plan_accept :
    ℕ → Slab Quote → Request → List ExpectedFill → Ts → Option (Result EngineError Plan)
unfolding plan_legs
plan_accept fuel quotes entry expected now =
    plan_legs fuel entry.n_legs 0 quotes entry expected now no_plan

abbrev joined : {A : Type 0} → Option (Option A) → Option A
joined none = none
joined (some o) = o

-- One round of the loop of `build_intent`.
unfoldable pub intend_leg :
    Slab Quote
    → Request
    → List (Option Selection)
    → ℕ
    → List IntentLeg
    → Result EngineError (List IntentLeg)
unfolding legs
intend_leg quotes entry winners index intent = do
  selection ← ok_or (joined (get_elem? winners index)) leg_count_mismatch
  g ← ok_or (get_elem? (legs entry) index) leg_count_mismatch
  winner ← ok_or (Slab.get quotes selection.quote) unknown_quote
  ok (
      set intent index (record {
        contract = g.contract;
        side = g.side;
        size = g.size;
        maker = winner.maker;
        fill_price = selection.price;
        quote_expiry = winner.expires_at;
      }))

unfoldable pub intend_legs :
    ℕ
    → ℕ
    → Slab Quote
    → Request
    → List (Option Selection)
    → List IntentLeg
    → Result EngineError (List IntentLeg)
unfolding intend_leg
intend_legs zero index quotes entry winners intent = ok intent
intend_legs (suc rounds) index quotes entry winners intent = do
  more ← intend_leg quotes entry winners index intent
  intend_legs rounds (index + 1) quotes entry winners more

-- `build_intent`.
unfoldable pub build_intent :
    Slab Quote → Request → List (Option Selection) → Result EngineError (List IntentLeg)
unfolding intend_legs
build_intent quotes entry winners =
    intend_legs entry.n_legs 0 quotes entry winners (replicate max_legs_bound empty_intent_leg)
