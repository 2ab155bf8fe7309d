-- ===== src/Chain.antt =====
-- What the contract of a delta-neutral position asks of the chain: raw reads of its manager's storage,
-- queries to the contracts of Terraswap, Astroport, Mirror, Spectrum and Anchor, and cosmwasm_std's
-- arithmetic of `Decimal`, all from outside the contract.
use position_managers.Prelude.{ℕ, ◌*◌, ◌/◌, ◌^◌, ◌≡◌, String, Bool, Option, List}
use position_managers.Cosmwasm.{Addr, Bytes, Result, ok}
use position_managers.Common.{AssetInfo, Asset}
use position_managers.Host.{Host}
use position_managers.Anchor.{Anchor, BignumLaws}
use position_managers.Dex.{Decimal256, Decimal256Laws}
use position_managers.DeltaNeutralManager.State.{AdminConfig, Context, FeeCollectionConfig}
use position_managers.DeltaNeutralManager.Rebalance.{Mirror}

-- Terraswap's `PairInfo`, and the assets that name a pair.
pub record PairInfo : Type 0 where
  pub contract_addr : Addr
  pub liquidity_token : Addr

abbrev pub PairAssets : Type 0
PairAssets = AssetInfo × AssetInfo

-- Mirror's `PositionLockInfoResponse`
pub record LockInfo : Type 0 where
  pub locked_amount : ℕ
  pub unlock_time : ℕ

-- An entry of the `RewardInfoResponse` of Spectrum's farm, and of Mirror's staking contract.
pub record SpectrumReward : Type 0 where
  pub asset_token : Addr
  pub bond_amount : ℕ
  pub auto_bond_share : ℕ
  pub pending_spec_reward : ℕ

pub record MirrorReward : Type 0 where
  pub bond_amount : ℕ
  pub pending_reward : ℕ

-- `AbridgedSpectrumPoolInfo` of spectrum_util.rs
pub record SpectrumPool : Type 0 where
  pub total_auto_bond_share : ℕ
  pub total_stake_bond_amount : ℕ

pub record Chain : Type 0 where
  pub host : Host
  pub anchor : Anchor
  pub mirror : Mirror
  pub decimal256 : Decimal256
  -- `Decimal::from_ratio`, `Uint128::multiply_ratio`, `Decimal::from(Decimal256)` and an integer root.
  pub from_ratio : ℕ → ℕ → Result ℕ
  pub multiply_ratio : ℕ → ℕ → ℕ → Result ℕ
  pub decimal_of : ℕ → Result ℕ
  pub integer_sqrt : ℕ → ℕ
  -- The manager's storage, and its queries `GetContext` and `GetAdminConfig`.
  pub manager_context : Addr → Result Context
  pub query_manager_context : Addr → Result Context
  pub manager_fee_collection_config : Addr → Result FeeCollectionConfig
  pub manager_should_close : Addr → Addr → Result (Option Bool)
  pub manager_admin_config : Addr → Result AdminConfig
  -- Balances of native coins, the supply of a cw20 token, and an asset's amount in a pool.
  pub query_balance : Addr → String → Result ℕ
  pub query_supply : Addr → Result ℕ
  pub query_pool : AssetInfo → Addr → Result ℕ
  -- Terraswap and Astroport: the pair of some assets by its factory, and what a swap returns.
  pub terraswap_pair : Addr → PairAssets → Result PairInfo
  pub terraswap_simulate : Addr → Asset → Result ℕ
  pub astroport_pair : Addr → PairAssets → Result Addr
  pub astroport_simulate : Addr → Asset → Result ℕ
  -- Mirror: the lock of a debt position, the next position, aUST's rate as collateral, rewards.
  pub lock_info : Addr → ℕ → Result LockInfo
  pub next_position_idx : Addr → Result ℕ
  pub collateral_rate : Addr → Addr → Result ℕ
  pub mirror_rewards : Addr → Addr → Option Addr → Result (List MirrorReward)
  -- Spectrum's farm: rewards, the stored pool of an asset, and whether a raw key is there.
  pub spectrum_rewards : Addr → Addr → Option Addr → Result (List SpectrumReward)
  pub spectrum_pool : Addr → Bytes → Result (Option SpectrumPool)
  pub has_raw_key : Addr → Bytes → Result Bool

-- What the libraries document of the arithmetic: a result that exists is exact, or rounded down.
pub record ChainLaws (c : Chain) : Type 0 where
  pub bignum : BignumLaws c.anchor
  pub decimals : Decimal256Laws c.decimal256
  pub multiplies : (a r p : ℕ) → c.host.mul_decimal a r ≡ ok p → p ≡ a * r / 10 ^ 18
  pub ratio : (a b r : ℕ) → c.from_ratio a b ≡ ok r → r ≡ a * 10 ^ 18 / b
