-- ===== src/DeltaNeutralPosition/Safety.antt =====
-- contracts/delta_neutral_position/src/contract.rs: bringing the collateral ratio back into the
-- range that the position aims at.
use position_managers.Prelude.{
  ℕ, Bool, false, not, some, List, [], ◌∷◌, ◌++◌, leb, ltb, ◌==◌, if◌then◌else◌,
}
use position_managers.Cosmwasm.{Addr, Result, ok, err, panic, ◌>>=◌, load, add_128, sub_128, Env}
use position_managers.Message.{
  CosmosMsg, wasm_execute, cw20_send, mint_burn, Response, plain_messages,
}
use position_managers.DeltaNeutralManager.State.{Context}
use position_managers.DeltaNeutralManager.Rebalance.{TargetCollateralRatioRange, PositionState}
use position_managers.Chain.{Chain, LockInfo}
use position_managers.DeltaNeutralPosition.Math.{
  times, reverse_decimal, decimal_division, decimal_multiplication, midpoint,
}
use position_managers.DeltaNeutralPosition.State.{State}
use position_managers.DeltaNeutralPosition.Util.{
  min_target_cr_range_width, get_cdp_uusd_lock_info_result, get_position_state,
  increase_mirror_asset_balance_from_long_farm, increase_uusd_balance_from_aust_collateral,
}

-- The range with its minimum raised to a required one, and its maximum with it.
unfoldable pub raised_range : TargetCollateralRatioRange → ℕ → Result TargetCollateralRatioRange
raised_range range required =
    if ltb range.min required
    then (do
      least_max ← add_128 required min_target_cr_range_width
      ok (record {
        min = required;
        max = if leb range.max least_max then least_max else range.max;
      }))
    else ok range

-- Below the range: mirror assets from the long farm are burnt against the debt.
unfoldable pub reduce_debt :
    Chain
    → State
    → Context
    → PositionState
    → Addr
    → TargetCollateralRatioRange
    → Result (List CosmosMsg)
unfolding midpoint decimal_multiplication reverse_decimal
    increase_mirror_asset_balance_from_long_farm
reduce_debt c s context state mirror_asset_cw20_addr range = do
  middle ← midpoint range
  value_per_debt ← decimal_multiplication c middle state.mirror_asset_oracle_price
  reversed ← reverse_decimal c value_per_debt
  target_short_mirror_asset_amount ← times c state.collateral_uusd_value reversed
  burn_amount ← sub_128 state.mirror_asset_short_amount target_short_mirror_asset_amount
  withdrawal ←
      increase_mirror_asset_balance_from_long_farm c state context.spectrum_mirror_farms_addr
        mirror_asset_cw20_addr burn_amount
  cdp_idx ← load s.cdp_idx
  ok (
      withdrawal
      ++ (wasm_execute mirror_asset_cw20_addr
            (cw20_send context.mirror_mint_addr burn_amount (mint_burn cdp_idx)) []
          ∷ []))

-- `if let Ok(info) = .. { if !info.locked_amount.is_zero() { .. } }`
unfoldable pub has_locked : Result LockInfo → Result Bool
has_locked (ok lock) = ok (not (lock.locked_amount == 0))
has_locked (err e) = ok false
has_locked panic = panic

-- Above the range: collateral is withdrawn and redeemed, unless proceeds are locked.
unfoldable pub withdraw_excess :
    Chain → State → Context → PositionState → TargetCollateralRatioRange → Result (List CosmosMsg)
unfolding midpoint decimal_division has_locked get_cdp_uusd_lock_info_result
    increase_uusd_balance_from_aust_collateral
withdraw_excess c s context state range = do
  locked ← has_locked (get_cdp_uusd_lock_info_result c s context)
  if locked then ok [] else (do
    middle ← midpoint range
    worth ← times c state.mirror_asset_short_amount state.mirror_asset_oracle_price
    ratio ← decimal_division c middle state.anchor_ust_oracle_price
    target_anchor_ust_collateral_amount ← times c worth ratio
    withdraw_amount ← sub_128 state.collateral_anchor_ust_amount target_anchor_ust_collateral_amount
    cdp_idx ← load s.cdp_idx
    ok (increase_uusd_balance_from_aust_collateral context cdp_idx withdraw_amount))

unfoldable pub adjust_ratio :
    Chain
    → State
    → Context
    → PositionState
    → Addr
    → TargetCollateralRatioRange
    → ℕ
    → Result (List CosmosMsg)
unfolding reduce_debt withdraw_excess
adjust_ratio c s context state mirror_asset_cw20_addr range collateral_ratio =
    if ltb collateral_ratio range.min
    then reduce_debt c s context state mirror_asset_cw20_addr range
    else (if ltb range.max collateral_ratio then withdraw_excess c s context state range else ok [])

unfoldable pub achieve_safe_collateral_ratios :
    Chain → State → Env → Context → Result (Response × State)
unfolding get_position_state raised_range adjust_ratio
achieve_safe_collateral_ratios c s env context = do
  state ← get_position_state c s env context
  debt_value ← times c state.mirror_asset_short_amount state.mirror_asset_oracle_price
  collateral_ratio ← c.from_ratio state.collateral_uusd_value debt_value
  range ← load s.target_collateral_ratio_range
  mirror_asset_cw20_addr ← load s.mirror_asset_cw20_addr
  config ← c.mirror.query_asset_config context.mirror_mint_addr mirror_asset_cw20_addr
  required ← add_128 config.min_collateral_ratio context.collateral_ratio_safety_margin
  raised ← raised_range range required
  messages ← adjust_ratio c s context state mirror_asset_cw20_addr raised collateral_ratio
  ok (plain_messages messages, record s { target_collateral_ratio_range = some raised })
