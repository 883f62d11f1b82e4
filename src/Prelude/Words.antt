-- ===== src/Prelude/Words.antt =====
-- Checked and saturating arithmetic of Rust's unsigned integers. A word is a number, and each
-- operation names the largest value of its width.
use Prim.Native.Nat.{ℕ, ◌+◌, ◌-◌, ◌*◌, ◌≤◌}
use mathlib.Core.Path.{◌≡◌}
use mathlib.Core.Option.{Option, none, some}
use native.Mathlib.Omega.{arith}
use rfq_matching_settlement.Prelude.Tests.{leb, if◌then◌else◌}

abbrev pub u8_max : ℕ
u8_max = 255

abbrev pub u32_max : ℕ
u32_max = 4294967295

abbrev pub u64_max : ℕ
u64_max = 18446744073709551615

abbrev pub u128_max : ℕ
u128_max = 340282366920938463463374607431768211455

-- `T::try_from` of a wider unsigned value.
abbrev pub narrow : ℕ → ℕ → Option ℕ
narrow top n = if leb n top then some n else none

abbrev pub checked_add : ℕ → ℕ → ℕ → Option ℕ
checked_add top a b = narrow top (a + b)

abbrev pub checked_mul : ℕ → ℕ → ℕ → Option ℕ
checked_mul top a b = narrow top (a * b)

abbrev pub checked_sub : ℕ → ℕ → Option ℕ
checked_sub a b = if leb b a then some (a - b) else none

abbrev pub saturating_add : ℕ → ℕ → ℕ → ℕ
saturating_add top a b = if leb (a + b) top then a + b else top

abbrev pub saturating_sub : ℕ → ℕ → ℕ
saturating_sub a b = a - b

pub saturating_add-le : (top a b : ℕ) → saturating_add top a b ≤ top
saturating_add-le top a b = ground arith

pub saturating_add_exact : (top a b : ℕ) → a + b ≤ top → saturating_add top a b ≡ a + b
saturating_add_exact top a b h = ground arith
