-- ===== src/Chain/Bundle.antt =====
-- crates/chain/src/bundle.rs: the settlement bundle. The fixed array of legs is a list of eight
-- slots, of which the first `n_legs` are real.
use rfq_matching_settlement.Prelude.{ℕ, Option, List, [], length, take, leb, if◌then◌else◌}
use rfq_matching_settlement.Core.Types
use rfq_matching_settlement.Core.Types.{Amount, Price, Size, Ts, Side, AccountIdx, unit, size_mul}
use rfq_matching_settlement.Core.Contract.{ContractIdx}
use rfq_matching_settlement.Core.Settlement.{Nonce}

pub record BundleLeg : Type 0 where
  pub contract : ContractIdx
  pub side : Side
  pub size : Size
  pub maker : AccountIdx
  pub fill_price : Price
  pub quote_expiry : Ts

-- `BundleLeg::requester_contribution`, `maker_contribution`, `notional`.
abbrev pub requester_contribution : BundleLeg → Option Amount
requester_contribution leg = Types.requester_contribution leg.size leg.fill_price

abbrev pub maker_contribution : BundleLeg → Option Amount
maker_contribution leg = Types.maker_contribution leg.size leg.fill_price

abbrev pub notional : BundleLeg → Option Amount
notional leg = size_mul leg.size unit

pub record Bundle : Type 0 where
  pub nonce : Nonce
  pub requester : AccountIdx
  pub slots : List BundleLeg
  pub n_legs : ℕ

-- `Bundle::legs`: the real legs, or none where the count is past the array.
unfoldable pub legs : Bundle → List BundleLeg
legs b = if leb b.n_legs (length b.slots) then take b.n_legs b.slots else []
