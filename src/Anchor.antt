-- ===== src/Anchor.antt =====
-- terra_contracts/packages/aperture_common/src/anchor_util.rs: what the contracts ask of Anchor's
-- market. The arithmetic of cosmwasm_bignumber, the market's state and cw20 balances are parameters.
-- A `Decimal256` is the number of its 10^-18 units.
use position_managers.Prelude.{ℕ, ◌+◌, ◌*◌, ◌/◌, ◌^◌, ◌≡◌}
use position_managers.Cosmwasm.{Addr, Result, ok, ◌>>=◌, Env}

pub record Anchor : Type 0 where
  -- The exchange rate of the market's `EpochState` at a block height.
  pub epoch_exchange_rate : Addr → ℕ → Result ℕ
  -- terraswap's `query_token_balance`: of a cw20 contract, for an owner.
  pub query_token_balance : Addr → Addr → Result ℕ
  -- `Uint256 + Uint256`, `Uint256 - Uint256`, `Uint256 * Decimal256`, `Uint256 / Decimal256`,
  -- `Decimal256::from_ratio` and the conversion of a `Uint256` to a `Uint128`.
  pub add_256 : ℕ → ℕ → Result ℕ
  pub sub_256 : ℕ → ℕ → Result ℕ
  pub mul_256 : ℕ → ℕ → Result ℕ
  pub div_256 : ℕ → ℕ → Result ℕ
  pub from_ratio : ℕ → ℕ → Result ℕ
  pub to_uint128 : ℕ → Result ℕ

-- What cosmwasm_bignumber documents: a result that exists is exact, or rounded down.
pub record BignumLaws (k : Anchor) : Type 0 where
  pub adds : (a b c : ℕ) → k.add_256 a b ≡ ok c → c ≡ a + b
  pub subtracts : (a b c : ℕ) → k.sub_256 a b ≡ ok c → c + b ≡ a
  pub multiplies : (a r c : ℕ) → k.mul_256 a r ≡ ok c → c ≡ a * r / 10 ^ 18
  pub divides : (a r c : ℕ) → k.div_256 a r ≡ ok c → c ≡ a * 10 ^ 18 / r
  pub ratio : (a b c : ℕ) → k.from_ratio a b ≡ ok c → c ≡ a * 10 ^ 18 / b
  pub converts : (a c : ℕ) → k.to_uint128 a ≡ ok c → c ≡ a

unfoldable pub get_anchor_ust_exchange_rate : Anchor → Env → Addr → Result ℕ
get_anchor_ust_exchange_rate k env anchor_market_addr =
    k.epoch_exchange_rate anchor_market_addr env.block_height

unfoldable pub get_anchor_ust_redemption_uusd_value : Anchor → ℕ → ℕ → Result ℕ
get_anchor_ust_redemption_uusd_value k anchor_ust_amount anchor_ust_exchange_rate =
    k.mul_256 anchor_ust_amount anchor_ust_exchange_rate >>= λ value. k.to_uint128 value

unfoldable pub get_anchor_ust_balance_with_uusd_value : Anchor → Env → Addr → Addr → Result (ℕ × ℕ)
get_anchor_ust_balance_with_uusd_value k env anchor_market_addr anchor_ust_cw20_addr = do
  exchange_rate ← k.epoch_exchange_rate anchor_market_addr env.block_height
  balance ← k.query_token_balance anchor_ust_cw20_addr env.contract_address
  value ← get_anchor_ust_redemption_uusd_value k balance exchange_rate
  ok (balance, value)
