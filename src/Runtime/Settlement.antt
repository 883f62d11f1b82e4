-- ===== src/Runtime/Settlement.antt =====
-- crates/runtime/src/settlement.rs: a submit intent becomes a settlement bundle.
use rfq_matching_settlement.Prelude.{
  ℕ, ◌+◌, Option, none, some, List, [], ◌∷◌, set, take, replicate,
}
use rfq_matching_settlement.Core.Types.{yes_side}
use rfq_matching_settlement.Core.Config.{max_legs_bound}
use rfq_matching_settlement.Core.Event.{
  IntentLeg, Event, request_opened, best_selection_changed, quote_rejected, quote_expired,
  contract_resolved, settle_intent, request_escrowed, request_settlement_failed, settlement_stalled,
  submit_intent,
}
use rfq_matching_settlement.Chain.Bundle.{BundleLeg, Bundle}
pub mod Legs

-- `BundleLeg::default`.
abbrev pub empty_bundle_leg : BundleLeg
empty_bundle_leg = record {
  contract = 0;
  side = yes_side;
  size = 0;
  maker = 0;
  fill_price = 0;
  quote_expiry = 0;
}

abbrev pub bundle_leg : IntentLeg → BundleLeg
bundle_leg leg = record {
  contract = leg.contract;
  side = leg.side;
  size = leg.size;
  maker = leg.maker;
  fill_price = leg.fill_price;
  quote_expiry = leg.quote_expiry;
}

-- The loop over the legs, from an index on.
unfoldable pub convert : ℕ → List IntentLeg → List BundleLeg → List BundleLeg
convert index [] converted = converted
convert index (leg ∷ rest) converted =
    convert (index + 1) rest (set converted index (bundle_leg leg))

-- `bundle_from`.
unfoldable pub bundle_from : Event → Option Bundle
unfolding convert
bundle_from (request_opened request deadline legs n) = none
bundle_from (best_selection_changed request leg price) = none
bundle_from (quote_rejected quote maker reason) = none
bundle_from (quote_expired quote maker) = none
bundle_from (contract_resolved k o) = none
bundle_from (settle_intent escrow k o) = none
bundle_from (request_escrowed request nonce) = none
bundle_from (request_settlement_failed request nonce) = none
bundle_from (settlement_stalled request nonce status) = none
bundle_from (submit_intent request nonce requester legs n) = some (record {
  nonce = nonce;
  requester = requester;
  slots = convert 0 (take n legs) (replicate max_legs_bound empty_bundle_leg);
  n_legs = n;
})
