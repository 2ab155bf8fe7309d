-- ===== src/DeltaNeutralPosition/Math.antt =====
-- contracts/delta_neutral_position/src/math.rs: Mirror's arithmetic of decimals. A `Decimal` is the
-- number of its 10^-18 units.
use position_managers.Prelude.{ℕ, ◌/◌}
use position_managers.Cosmwasm.{Result, ok, ◌>>=◌, add_128}
use position_managers.DeltaNeutralManager.Rebalance.{TargetCollateralRatioRange}
use position_managers.Chain.{Chain}

abbrev pub decimal_fractional : ℕ
decimal_fractional = 1_000_000_000

-- `Uint128 * Decimal`
abbrev pub times : Chain → ℕ → ℕ → Result ℕ
times c amount decimal = c.host.mul_decimal amount decimal

unfoldable pub reverse_decimal : Chain → ℕ → Result ℕ
reverse_decimal c decimal = do
  scaled ← times c decimal_fractional decimal
  c.from_ratio decimal_fractional scaled

unfoldable pub decimal_division : Chain → ℕ → ℕ → Result ℕ
decimal_division c a b = do
  scaled_a ← times c decimal_fractional a
  scaled_b ← times c decimal_fractional b
  c.from_ratio scaled_a scaled_b

unfoldable pub decimal_multiplication : Chain → ℕ → ℕ → Result ℕ
decimal_multiplication c a b = do
  scaled ← times c decimal_fractional a
  product ← times c scaled b
  c.from_ratio product decimal_fractional

-- `TargetCollateralRatioRange::midpoint` of delta_neutral_position.rs
unfoldable pub midpoint : TargetCollateralRatioRange → Result ℕ
midpoint range = do sum ← add_128 range.min range.max; ok (sum / 2)
