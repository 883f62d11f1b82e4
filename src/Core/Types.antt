-- ===== src/Core/Types.antt =====
-- crates/core/src/types.rs: the money and time newtypes. Each newtype is a number within its
-- width; a range is a hypothesis where a theorem needs it.
use rfq_matching_settlement.Prelude.{
  ℕ, Option, u64_max, u128_max, narrow, checked_add, checked_sub, checked_mul, saturating_add,
  saturating_sub,
}
use rfq_matching_settlement.Prelude.Partial.{◌>>=◌}
pub mod Contributions

abbrev pub Amount : Type 0
Amount = ℕ

abbrev pub Price : Type 0
Price = ℕ

abbrev pub Size : Type 0
Size = ℕ

abbrev pub Ts : Type 0
Ts = ℕ

abbrev pub Dur : Type 0
Dur = ℕ

abbrev pub LegId : Type 0
LegId = ℕ

abbrev pub AccountIdx : Type 0
AccountIdx = ℕ

abbrev pub EscrowId : Type 0
EscrowId = ℕ

-- `UNIT`: the payout of one contract to the winning side.
abbrev pub unit : Price
unit = 1000000

pub data Side : Type 0 where
  yes_side no_side : Side

abbrev pub opposite : Side → Side
opposite yes_side = no_side
opposite no_side = yes_side

-- `Amount::checked_add`, `Amount::checked_sub`.
abbrev pub amount_add : Amount → Amount → Option Amount
amount_add = checked_add u64_max

abbrev pub amount_sub : Amount → Amount → Option Amount
amount_sub = checked_sub

-- `Ts::checked_add`, `Ts::saturating_add`, `Ts::saturating_sub`.
abbrev pub ts_add : Ts → Dur → Option Ts
ts_add = checked_add u64_max

abbrev pub ts_saturating_add : Ts → Dur → Ts
ts_saturating_add = saturating_add u64_max

abbrev pub ts_saturating_sub : Ts → Ts → Dur
ts_saturating_sub = saturating_sub

-- `Dur::checked_add`, `Dur::checked_mul`.
abbrev pub dur_add : Dur → Dur → Option Dur
dur_add = checked_add u64_max

abbrev pub dur_mul : Dur → ℕ → Option Dur
dur_mul = checked_mul u64_max

-- `Size::checked_mul`: the product in u128, checked on narrowing.
unfoldable pub size_mul : Size → Price → Option Amount
size_mul size price = do product ← checked_mul u128_max size price; narrow u64_max product

unfoldable pub requester_contribution : Size → Price → Option Amount
unfolding size_mul
requester_contribution size price = size_mul size price

unfoldable pub maker_contribution : Size → Price → Option Amount
unfolding size_mul
maker_contribution size price = do complement ← checked_sub unit price; size_mul size complement

unfoldable pub notional : Size → Option Amount
unfolding size_mul
notional size = size_mul size unit
