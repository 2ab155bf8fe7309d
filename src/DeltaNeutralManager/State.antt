-- ===== src/DeltaNeutralManager/State.antt =====
-- contracts/delta_neutral_position_manager/src/state.rs, with the types that it stores
-- (packages/aperture_common/src/delta_neutral_position_manager.rs).
use position_managers.Prelude.{ℕ, String, Bool, Option, some, str_eq, if◌then◌else◌}
use position_managers.Cosmwasm.{Addr, Bytes, Result}
use position_managers.Common.{Position, PositionKey}
use position_managers.Message.{DeltaNeutralParams}

pub record AdminConfig : Type 0 where
  pub admin : Addr
  pub terra_manager : Addr
  pub delta_neutral_position_code_id : ℕ

pub record Context : Type 0 where
  pub controller : Addr
  pub anchor_ust_cw20_addr : Addr
  pub mirror_cw20_addr : Addr
  pub spectrum_cw20_addr : Addr
  pub anchor_market_addr : Addr
  pub mirror_collateral_oracle_addr : Addr
  pub mirror_lock_addr : Addr
  pub mirror_mint_addr : Addr
  pub mirror_oracle_addr : Addr
  pub mirror_staking_addr : Addr
  pub spectrum_gov_addr : Addr
  pub spectrum_mirror_farms_addr : Addr
  pub spectrum_staker_addr : Addr
  pub terraswap_factory_addr : Addr
  pub astroport_factory_addr : Addr
  pub collateral_ratio_safety_margin : ℕ
  pub min_open_uusd_amount : ℕ
  pub min_reinvest_uusd_amount : ℕ

pub record FeeCollectionConfig : Type 0 where
  pub performance_rate : ℕ
  pub off_market_position_open_service_fee_uusd : ℕ
  pub collector_addr : String

pub record State : Type 0 where
  pub context : Option Context
  pub fee_collection_config : Option FeeCollectionConfig
  pub admin_config : Option AdminConfig
  pub tmp_position : Option Position
  pub position_to_contract_addr : PositionKey → Option Addr
  pub position_open_allowed_mirror_assets : String → Option Bool
  pub should_preemptively_close_cdp_mirror_assets : Addr → Option Bool

-- `Map::save` where the keys are texts.
abbrev pub save_text {ℓ} : {V : Type ℓ} → String → V → (String → Option V) → String → Option V
save_text k v m j = if str_eq k j then some v else m j

-- What the manager takes from code outside the repository: the JSON of an open payload, the
-- protobuf message that answers an instantiation, and the code id that a contract has stored.
pub record Codes : Type 0 where
  pub params_from_binary : Bytes → Result DeltaNeutralParams
  pub parse_instantiate_response : Bytes → Option String
  pub query_code_id : Addr → Option ℕ
