-- ===== src/DeltaNeutralPosition/State.antt =====
-- contracts/delta_neutral_position/src/state.rs: the storage of a position's contract.
use position_managers.Prelude.{ℕ, Bool, Option, none, some}
use position_managers.Cosmwasm.{Addr}
use position_managers.DeltaNeutralManager.Rebalance.{PositionActionInfo, TargetCollateralRatioRange}

pub record State : Type 0 where
  pub manager : Option Addr
  pub position_open_info : Option PositionActionInfo
  pub position_close_info : Option PositionActionInfo
  pub cdp_idx : Option ℕ
  pub cdp_preemptively_closed : Option Bool
  pub mirror_asset_cw20_addr : Option Addr
  pub target_collateral_ratio_range : Option TargetCollateralRatioRange
  pub last_fee_collection_position_uusd_value : Option ℕ
  pub code_id : Option ℕ

-- After `instantiate`, called by the manager.
abbrev pub fresh_state : Addr → State
fresh_state manager = record {
  manager = some manager;
  position_open_info = none;
  position_close_info = none;
  cdp_idx = none;
  cdp_preemptively_closed = none;
  mirror_asset_cw20_addr = none;
  target_collateral_ratio_range = none;
  last_fee_collection_position_uusd_value = none;
  code_id = none;
}
