-- ===== src/Core/Engine/Terms.antt =====
-- crates/core/src/engine.rs, `submit_request`: the loop that checks the terms of each leg.
use rfq_matching_settlement.Prelude.{
  ℕ, zero, suc, ◌+◌, List, get_elem?, set, replicate, ltb, leb, ◌==◌,
}
use rfq_matching_settlement.Prelude.Result.{Result, ok, ok_or, err_if, ◌>>=◌, ◌>>◌}
use rfq_matching_settlement.Core.Types.{Amount, Ts, Dur, yes_side, unit, amount_add, size_mul}
use rfq_matching_settlement.Prelude.{checked_sub}
use rfq_matching_settlement.Core.Config.{max_legs_bound}
use rfq_matching_settlement.Core.Command.{LegSpec}
use rfq_matching_settlement.Core.Request.{Leg, new_leg}
use rfq_matching_settlement.Core.Event.{OpenLeg, empty_open_leg}
use rfq_matching_settlement.Core.Ledger.{Ledger}
use rfq_matching_settlement.Core.Engine.{
  EngineError, too_many_legs, zero_size, price_out_of_range, no_such_contract, contract_too_near,
  product_overflow, contract_at,
}

-- `Leg::default`.
abbrev pub empty_leg : Leg
empty_leg = new_leg 0 yes_side 0 0

-- The local variables of the loop.
pub record Terms : Type 0 where
  pub stored : List Leg
  pub opened : List OpenLeg
  pub reservation : Amount

abbrev pub no_terms : Terms
no_terms = record {
  stored = replicate max_legs_bound empty_leg;
  opened = replicate max_legs_bound empty_open_leg;
  reservation = 0;
}

-- One round.
unfoldable pub add_leg : Ledger → Dur → Ts → List LegSpec → ℕ → Terms → Result EngineError Terms
unfolding size_mul
add_leg l min_horizon now specs index terms = do
  spec ← ok_or (get_elem? specs index) too_many_legs
  err_if (spec.size == 0) zero_size
  err_if (ltb unit spec.limit) price_out_of_range
  contract ← ok_or (contract_at spec.contract l) no_such_contract
  horizon ← ok_or (checked_sub contract.event_date min_horizon) contract_too_near
  err_if (leb horizon now) contract_too_near
  leg_reservation ← ok_or (size_mul spec.size spec.limit) product_overflow
  reservation ← ok_or (amount_add terms.reservation leg_reservation) product_overflow
  ok (record {
    stored = set terms.stored index (new_leg spec.contract spec.side spec.size spec.limit);
    opened =
        set terms.opened index
          (record { contract = spec.contract; side = spec.side; size = spec.size });
    reservation = reservation;
  })

-- The loop over the legs `index ..`.
unfoldable pub add_legs :
    ℕ → ℕ → Ledger → Dur → Ts → List LegSpec → Terms → Result EngineError Terms
unfolding add_leg
add_legs zero index l min_horizon now specs terms = ok terms
add_legs (suc rounds) index l min_horizon now specs terms = do
  more ← add_leg l min_horizon now specs index terms
  add_legs rounds (index + 1) l min_horizon now specs more
