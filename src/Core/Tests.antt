-- ===== src/Core/Tests.antt =====
-- The theorems on crates/core, applied to concrete inputs.
mod Claims
mod Venue
mod Handlers
mod Books
use rfq_matching_settlement.Prelude.{
  ◌+◌, ◌*◌, ◌≤◌, ◌<◌, ◌≡◌, ◌↔◌, ◌⊎◌, refl, ℕ, none, some, List, [], ◌∷◌, arith, u64_max,
  if◌then◌else◌, length, suc,
}
use mathlib.Core.Option
use rfq_matching_settlement.Prelude.Result.{Result, ok}
use rfq_matching_settlement.Core.Types.{
  unit, yes_side, requester_contribution, maker_contribution, notional,
}
use rfq_matching_settlement.Core.Types.Contributions.{contributions_sum, contributions_exist}
use rfq_matching_settlement.Core.Config.{validate, default_config}
use rfq_matching_settlement.Core.Config.Timelock.{IsSafe, validate_iff}
use rfq_matching_settlement.Core.Contract.{
  Contract, silent, final, unresolved, resolved, void, yes_outcome, no_outcome, outcome,
}
use rfq_matching_settlement.Core.Contract.Monotone.{outcome_iff, outcome_immutable, report_all}
use rfq_matching_settlement.Core.Slab.{
  with_capacity, nil, Handle, handle_eq, vacant, occupied, Slab, insert, get, modify, remove,
}
use rfq_matching_settlement.Core.Slab.Free.{IsWell, taken, insert-IsWell}
use rfq_matching_settlement.Core.Slab.Freeing.{given_back, remove-IsWell}
use rfq_matching_settlement.Core.Slab.Reads.{get-insert, get-remove, get-modify}
use rfq_matching_settlement.Core.Slab.Fresh.{range, with_capacity-IsWell}
use rfq_matching_settlement.Core.Slab.Past.{SlabStep, inserts, writes, removes, run}
use rfq_matching_settlement.Core.Slab.Stale.{removed_for_ever}
use rfq_matching_settlement.Core.Quote.{Quote, new_quote}
use rfq_matching_settlement.Core.Request.{Leg, new_leg, Selection}
use rfq_matching_settlement.Core.Selection.{NoQuoteReason, quote_at, best_on_leg}
use rfq_matching_settlement.Core.Selection.Best.{Chain, ends, links, Answer, best_on_leg-Answer}

contributions_sum_example : (400000 ≤ unit) × (4000000 + 6000000 ≡ 10 * unit)
unfolding requester_contribution maker_contribution
contributions_sum_example = contributions_sum 10 400000 refl refl

validate_iff_example : (validate default_config ≡ ok tt) ↔ IsSafe default_config
unfolding default_config
validate_iff_example = validate_iff default_config (omega arith) (omega arith)

abbrev quiet : Contract
quiet = record { event_date = 100; state = unresolved; oracle_status = silent }

abbrev won : Contract
won = record { event_date = 100; state = resolved yes_outcome; oracle_status = final yes_outcome }

outcome_iff_example : (outcome quiet 151 50 ≡ ok void) ↔ (
    (quiet.oracle_status ≡ final void)
    ⊎ ((quiet.oracle_status ≡ silent)
        × (void ≡ void)
        × (quiet.event_date + 50 ≤ u64_max)
        × (quiet.event_date + 50 < 151)))
outcome_iff_example = outcome_iff quiet 151 50 void refl

-- Three slots: the middle one holds 7, and the free list is the last and then the first.
abbrev slots : Slab ℕ
slots = record {
  slots =
      record { generation = 2; state = vacant nil }
      ∷ record { generation = 0; state = occupied 7 }
      ∷ record { generation = 1; state = vacant 0 }
      ∷ [];
  free_head = 2;
  live = 1;
}

slots-IsWell : IsWell slots (2 ∷ 0 ∷ [])
slots-IsWell = record {
  head = refl;
  chained = (refl, (refl, tt));
  distinct = (((λ e. omega arith), tt), (tt, tt));
  counted = refl;
  small = omega arith;
}

abbrev held : Handle
held = record { index = 1; generation = 0 }

remove-IsWell_example : IsWell (remove held slots).1 (given_back slots held (2 ∷ 0 ∷ []))
remove-IsWell_example = remove-IsWell held slots (2 ∷ 0 ∷ []) slots-IsWell

abbrev taken_slot : Handle
taken_slot = record { index = 2; generation = 1 }

filled : insert 9 slots ≡ (ok taken_slot, (insert 9 slots).1)
unfolding insert
filled = refl

abbrev asked : Leg
asked = record (new_leg 0 yes_side 10 500000) { quotes_head = 1; quote_count = 2 }

abbrev offer : ℕ → ℕ → ℕ → ℕ → Quote
offer maker price arrival next =
    record (new_quote maker (record { index = 0; generation = 0 }) 0 price 10 90 arrival) {
      next_on_leg = next;
    }

abbrev quotes : Slab Quote
quotes = record {
  slots =
      record { generation = 0; state = occupied (offer 1 400000 0 nil) }
      ∷ record { generation = 3; state = occupied (offer 2 450000 1 0) }
      ∷ [];
  free_head = nil;
  live = 2;
}

abbrev chain : List (Handle × Quote)
chain =
    (record { index = 1; generation = 3 }, offer 2 450000 1 0)
    ∷ (record { index = 0; generation = 0 }, offer 1 400000 0 nil)
    ∷ []

chain-Chain : Chain quotes asked.quotes_head chain
unfolding quote_at
chain-Chain =
    links 1 (record { index = 1; generation = 3 }) (offer 2 450000 1 0)
      ((record { index = 0; generation = 0 }, offer 1 400000 0 nil) ∷ []) refl
      (links 0 (record { index = 0; generation = 0 }) (offer 1 400000 0 nil) [] refl
        (ends nil refl))

best_on_leg-Answer_example :
    (r : Result NoQuoteReason Selection) × (best_on_leg (suc (length chain)) quotes asked 50
      ≡ some r)
    × Answer asked 50 chain r
best_on_leg-Answer_example = best_on_leg-Answer quotes asked 50 chain chain-Chain

abbrev churn : List (SlabStep ℕ)
churn = inserts 8 ∷ writes held suc ∷ removes held ∷ inserts 9 ∷ []

holds : get slots held ≡ some 7
unfolding get
holds = refl

removed_for_ever_example : get (run churn (remove held slots).1) held ≡ none
removed_for_ever_example = removed_for_ever churn held slots (2 ∷ 0 ∷ []) slots-IsWell holds
