-- ===== src/Common.antt =====
-- terra_contracts/packages/aperture_common/src/common.rs: the data types that the contracts share,
-- with terraswap's `Asset`. A `Decimal` is the number of its 10^-18 units.
use position_managers.Prelude.{◌≡◌, true, arith, ==_iff, ℕ, String, Bool, Option, ◌==◌, ◌&&◌}
use position_managers.Cosmwasm.{Addr, Bytes}

pub data AssetInfo : Type 0 where
  native_token : String → AssetInfo
  token : Addr → AssetInfo

pub record Asset : Type 0 where
  pub info : AssetInfo
  pub amount : ℕ

pub record Position : Type 0 where
  pub chain_id : ℕ
  pub position_id : ℕ

pub record Strategy : Type 0 where
  pub chain_id : ℕ
  pub strategy_id : ℕ

pub record StrategyMetadata : Type 0 where
  pub name : String
  pub version : String
  pub manager_addr : Addr

pub data StrategyLocation : Type 0 where
  terra_chain : ℕ → StrategyLocation
  external_chain : ℕ → StrategyLocation

pub record SwapAndDisburseInfo : Type 0 where
  pub desired_token_addr : Bytes
  pub minimum_amount : ℕ

pub data Recipient : Type 0 where
  terra_recipient : String → Recipient
  external_recipient : ℕ → Bytes → Option SwapAndDisburseInfo → Recipient

pub data Action : Type 0 where
  open_position : Option Bytes → Action
  close_position : Recipient → Action
  increase_position : Option Bytes → Action
  decrease_position : ℕ → Recipient → Action

abbrev pub PositionKey : Type 0
PositionKey = ℕ × ℕ

abbrev pub get_position_key : Position → PositionKey
get_position_key p = (p.chain_id, p.position_id)

abbrev pub key_eq : PositionKey → PositionKey → Bool
key_eq (a, b) (c, d) = a == c && b == d

-- `TERRA_CHAIN_ID` of terra_manager.rs
abbrev pub terra_chain_id : ℕ
terra_chain_id = 3

pub key_eq_refl : (key : PositionKey) → key_eq key key ≡ true
key_eq_refl (a, b) = ground (arith, ==_iff a a, ==_iff b b)
