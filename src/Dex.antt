-- ===== src/Dex.antt =====
-- contracts/delta_neutral_position/src/dex_util.rs: Terraswap's constant-product swap with a 0.3%
-- commission, simulated, and inverted by binary search. `Decimal256` arithmetic is a parameter.
pub mod Search
pub mod Offer
use position_managers.Prelude.{
  ℕ, ◌+◌, ◌-◌, ◌*◌, ◌/◌, ◌^◌, ◌≤◌, ◌<◌, ◌≡◌, zero, suc, Bool, ltb, leb, if◌then◌else◌,
}
use position_managers.Cosmwasm.{Result, ok, err, panic, ◌>>=◌, ◌>>◌, fail_if, generic_err}

-- cosmwasm_std's `Decimal256::from_ratio`, `Decimal256 - Decimal256`, `Uint256 * Decimal256`, and
-- the conversion of a `Uint256` to a `Uint128`.
pub record Decimal256 : Type 0 where
  pub from_ratio : ℕ → ℕ → Result ℕ
  pub subtract : ℕ → ℕ → Result ℕ
  pub multiply : ℕ → ℕ → Result ℕ
  pub to_uint128 : ℕ → Result ℕ

-- What cosmwasm_std documents: a result that fits 256 bits is given, exactly or rounded down.
pub record Decimal256Laws (d : Decimal256) : Type 0 where
  pub ratio :
      (a b : ℕ) → 0 < b → a * 10 ^ 18 / b < 2 ^ 256 → d.from_ratio a b ≡ ok (a * 10 ^ 18 / b)
  pub difference : (a b : ℕ) → b ≤ a → d.subtract a b ≡ ok (a - b)
  pub product : (a r : ℕ) → a * r / 10 ^ 18 < 2 ^ 256 → d.multiply a r ≡ ok (a * r / 10 ^ 18)
  pub narrow : (a : ℕ) → a < 2 ^ 128 → d.to_uint128 a ≡ ok a

-- `Uint256 + Uint256`, `Uint256 - Uint256` and `Uint256 * Uint256` panic out of range.
abbrev pub add_256 : ℕ → ℕ → Result ℕ
add_256 a b = if ltb (a + b) (2 ^ 256) then ok (a + b) else panic

abbrev pub sub_256 : ℕ → ℕ → Result ℕ
sub_256 a b = if leb b a then ok (a - b) else panic

abbrev pub mul_256 : ℕ → ℕ → Result ℕ
mul_256 a b = if ltb (a * b) (2 ^ 256) then ok (a * b) else panic

-- `while a < b { let mid = (a + b) >> 1; if too_little(mid) { a = mid + 1 } else { b = mid } }`,
-- for a number of rounds.
unfoldable pub search : (ℕ → Result Bool) → ℕ → ℕ → ℕ → Result ℕ
search too_little zero a b = if ltb a b then panic else ok a
search too_little (suc n) a b =
    let rest = add_256 a b >>= λ sum. too_little (sum / 2) >>= λ less.
    search too_little n (if less then sum / 2 + 1 else a) (if less then b else sum / 2) in
    if ltb a b then rest else ok a

-- What a swap of `offer_amount` returns, the commission taken off.
unfoldable pub simulated_return_amount : Decimal256 → ℕ → ℕ → ℕ → ℕ → Result ℕ
simulated_return_amount d ask_pool_amount offer_pool_amount cp offer_amount = do
  commission_rate ← d.from_ratio 3 1000
  before ← d.from_ratio ask_pool_amount 1
  pool ← add_256 offer_pool_amount offer_amount
  after ← d.from_ratio cp pool
  returned ← d.subtract before after
  return_amount ← d.multiply 1 returned
  commission ← d.multiply return_amount commission_rate
  sub_256 return_amount commission

abbrev pub uint128_max : ℕ
uint128_max = 2 ^ 128 - 1

unfoldable pub compute_terraswap_offer_amount : Decimal256 → ℕ → ℕ → ℕ → Result ℕ
unfolding simulated_return_amount
compute_terraswap_offer_amount d ask_pool_amount offer_pool_amount ask_amount = do
  fail_if (leb ask_pool_amount ask_amount) (generic_err "insufficient liquidity")
  cp ← mul_256 offer_pool_amount ask_pool_amount
  found ←
      search
        (λ offer_amount.
          simulated_return_amount d ask_pool_amount offer_pool_amount cp offer_amount
          >>= λ returned. ok (ltb returned ask_amount))
        128 0 uint128_max
  d.to_uint128 found
