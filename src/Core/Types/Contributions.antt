-- ===== src/Core/Types/Contributions.antt =====
-- crates/core/src/types.rs: the two contributions of a leg make up its notional exactly.
use rfq_matching_settlement.Prelude.{ℕ, ◌+◌, ◌-◌, ◌*◌, ◌≤◌, ◌<◌, ◌≡◌, none, some, arith, u64_max}
use rfq_matching_settlement.Core.Types.{
  unit, size_mul, requester_contribution, maker_contribution, notional,
}

-- A product that fits a u64 is returned as it is, and any other is refused: the u128 product of a
-- u64 and a u32 never overflows on the way.
pub size_mul_exact : (s p : ℕ) → s * p ≤ u64_max → size_mul s p ≡ some (s * p)
unfolding size_mul
size_mul_exact s p h = ground arith

pub size_mul_overflow : (s p : ℕ) → u64_max < s * p → size_mul s p ≡ none
unfolding size_mul
size_mul_overflow s p h = ground arith

pub size_mul_value : (s p : ℕ) {a : ℕ} → size_mul s p ≡ some a → (a ≡ s * p) × (a ≤ u64_max)
unfolding size_mul
size_mul_value s p h = ground arith

distribute : (s p c k : ℕ) → p + c ≡ k → s * p + s * c ≡ s * k
distribute s p c k e = rw (← e) (omega arith)

split_unit : (s p : ℕ) → p ≤ unit → s * p + s * (unit - p) ≡ s * unit
split_unit s p h = distribute s p (unit - p) unit (omega arith)

-- Where both contributions exist they sum to the notional exactly.
pub contributions_sum :
    (s p : ℕ) {r m : ℕ}
    → requester_contribution s p ≡ some r
    → maker_contribution s p ≡ some m
    → (p ≤ unit) × (r + m ≡ s * unit)
unfolding requester_contribution maker_contribution
contributions_sum s p hr hm = ground (arith, split_unit s p)

-- The whole notional is escrowed: at a price in range, whenever the notional fits a u64 both
-- contributions exist.
pub contributions_exist :
    (s p : ℕ) {n : ℕ}
    → p ≤ unit
    → notional s ≡ some n
    → (r : ℕ) × (m : ℕ) × (requester_contribution s p ≡ some r)
      × (maker_contribution s p ≡ some m)
      × (r + m ≡ n)
unfolding requester_contribution maker_contribution notional
contributions_exist s p h e = (
  s * p,
  s * (unit - p),
  ground (arith, split_unit s p),
  ground (arith, split_unit s p),
  ground (arith, split_unit s p),
)
