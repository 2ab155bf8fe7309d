-- ===== src/DeltaNeutralManager/Decision.antt =====
-- What an answer of the rebalance query says about the position: when it may be left alone.
pub mod Tests
pub mod Judging
use position_managers.Prelude.{
  ℕ, ◌+◌, ◌-◌, ◌≤◌, ◌≡◌, ◌≢◌, refl, sym, ap, ◌∙◌, ◌⊎◌, inl, inr, Bool, true, false, not, ◌&&◌, ◌||◌,
  Option, none, some, unwrap_or, ltb, ltb-eq-false, ◌==◌, ==_iff, if◌then◌else◌, arith,
}
use position_managers.Cosmwasm.{
  Addr, Result, ok, err, panic, is_ok, load, unwrap, chain, branch, ok-injective, load-eq-ok,
  add_128, add_128-eq,
}
use position_managers.Common.{Position, get_position_key}
use position_managers.Host.{Host}
use position_managers.DeltaNeutralManager.State.{Context, State}
use position_managers.DeltaNeutralManager.Rebalance.{
  PositionActionInfo, PositionState, DetailedPositionInfo, PositionInfo, AssetConfig, CdpResponse,
  Mirror, rate_of, get_mirror_cdp_response, get_mirror_asset_fresh_oracle_uusd_rate, is_some,
  is_mirror_asset_delisted, ShouldCall, is_liquidated, is_pending_unlock, difference, liquid_uusd,
  judge_amounts, judge_ratio, judge_asset, judge_position, judge,
  query_should_call_rebalance_and_reinvest,
}

-- Short proceeds of which none can be claimed yet.
abbrev pub IsLocked : DetailedPositionInfo → Type 0
IsLocked detailed =
    (detailed.unclaimed_short_proceeds_uusd_amount ≢ 0)
    × (detailed.claimable_short_proceeds_uusd_amount ≡ 0)

-- Amounts that are in order: neither side exceeds the other by more than is tolerated, and no more
-- uusd than the limit is idle, unless short proceeds are locked.
pub record IsBalanced (h : Host) (tolerance threshold : ℕ) (detailed : DetailedPositionInfo)
    : Type 0 where
  pub state : PositionState
  pub tolerated : ℕ
  pub limit : ℕ
  pub state_is : detailed.state ≡ some state
  pub tolerated_is : h.mul_decimal state.mirror_asset_long_amount tolerance ≡ ok tolerated
  pub not_long : state.mirror_asset_long_amount ≤ state.mirror_asset_short_amount + tolerated
  pub not_short : state.mirror_asset_short_amount ≤ state.mirror_asset_long_amount + tolerated
  pub limit_is : h.mul_decimal detailed.uusd_value threshold ≡ ok limit
  pub invested :
      (state.uusd_balance + detailed.claimable_mir_reward_uusd_value
          + detailed.claimable_spec_reward_uusd_value
          + detailed.claimable_short_proceeds_uusd_amount
        ≤ limit)
      ⊎ IsLocked detailed

-- A collateral ratio in its target range, which keeps the safety margin. Locked short proceeds excuse
-- a ratio above the range.
pub record IsInRange (context : Context) (config : AssetConfig) (detailed : DetailedPositionInfo)
    : Type 0 where
  pub ratio : ℕ
  pub ratio_is : detailed.collateral_ratio ≡ some ratio
  pub safe_target :
      config.min_collateral_ratio + context.collateral_ratio_safety_margin
      ≤ detailed.target_collateral_ratio_range.min
  pub not_below : detailed.target_collateral_ratio_range.min ≤ ratio
  pub not_above : (ratio ≤ detailed.target_collateral_ratio_range.max) ⊎ IsLocked detailed

-- A position in good shape: Mirror knows its debt position, its mirror asset is listed and not to be
-- closed, and its ratio and amounts are in order.
pub record InGoodShape (h : Host) (m : Mirror) (s : State) (context : Context) (info : PositionInfo)
    (tolerance threshold : ℕ) (detailed : DetailedPositionInfo) : Type 0 where
  pub cdp_idx : ℕ
  pub cdp : CdpResponse
  pub config : AssetConfig
  pub cdp_is : info.cdp_idx ≡ some cdp_idx
  pub cdp_known : m.query_cdp context.mirror_mint_addr cdp_idx ≡ ok cdp
  pub config_is :
      m.query_asset_config context.mirror_mint_addr info.mirror_asset_cw20_addr ≡ ok config
  pub not_to_be_closed :
      s.should_preemptively_close_cdp_mirror_assets info.mirror_asset_cw20_addr ≢ some true
  pub listed : config.end_price ≡ none
  pub in_range : IsInRange context config detailed
  pub balanced : IsBalanced h tolerance threshold detailed

-- Why a position is left alone: it is closed, its debt position was closed ahead of time, its mirror
-- asset has no price of the last minute, or it is in good shape.
abbrev pub MayRest : Host → Mirror → State → ℕ → ℕ → PositionInfo → Type 0
MayRest h m s tolerance threshold info =
    ((closing : PositionActionInfo) × (info.position_close_info ≡ some closing))
    ⊎ ((detailed : DetailedPositionInfo) × (info.detailed_info ≡ some detailed)
        × ((detailed.cdp_preemptively_closed ≡ true)
            ⊎ ((context : Context) × (s.context ≡ some context)
                × (((price : ℕ)
                      → m.query_asset_price context.mirror_oracle_addr info.mirror_asset_cw20_addr
                          (some 60)
                        ≢ ok price)
                    ⊎ InGoodShape h m s context info tolerance threshold detailed))))
