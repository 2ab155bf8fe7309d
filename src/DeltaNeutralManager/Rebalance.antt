-- ===== src/DeltaNeutralManager/Rebalance.antt =====
-- contracts/delta_neutral_position_manager/src/contract.rs: whether the controller should ask a
-- position to rebalance and reinvest, with the queries of packages/aperture_common/src/mirror_util.rs
-- and the answers of a position (packages/aperture_common/src/delta_neutral_position.rs).
use position_managers.Prelude.{
  ℕ, ◌-◌, Bool, true, false, not, ◌&&◌, ◌||◌, Option, none, some, unwrap_or, ltb, ◌==◌,
  if◌then◌else◌,
}
use position_managers.Cosmwasm.{Addr, Result, ok, err, panic, ◌>>=◌, load, unwrap, is_ok, add_128}
use position_managers.Common.{Position, get_position_key}
use position_managers.Host.{Host}
use position_managers.DeltaNeutralManager.State.{Context, State}

pub record PositionActionInfo : Type 0 where
  pub height : ℕ
  pub time_nanoseconds : ℕ
  pub uusd_amount : ℕ

pub record TargetCollateralRatioRange : Type 0 where
  pub min : ℕ
  pub max : ℕ

pub record TerraswapPoolInfo : Type 0 where
  pub lp_token_amount : ℕ
  pub lp_token_cw20_addr : Addr
  pub lp_token_total_supply : ℕ
  pub terraswap_pair_addr : Addr
  pub terraswap_pool_mirror_asset_amount : ℕ
  pub terraswap_pool_uusd_amount : ℕ
  pub spectrum_auto_compound_share_amount : ℕ

pub record PositionState : Type 0 where
  pub uusd_balance : ℕ
  pub uusd_long_farm : ℕ
  pub mirror_asset_short_amount : ℕ
  pub mirror_asset_balance : ℕ
  pub mirror_asset_long_farm : ℕ
  pub mirror_asset_long_amount : ℕ
  pub collateral_anchor_ust_amount : ℕ
  pub collateral_uusd_value : ℕ
  pub mirror_asset_oracle_price : ℕ
  pub anchor_ust_oracle_price : ℕ
  pub terraswap_pool_info : TerraswapPoolInfo

pub record DetailedPositionInfo : Type 0 where
  pub cdp_preemptively_closed : Bool
  pub state : Option PositionState
  pub target_collateral_ratio_range : TargetCollateralRatioRange
  pub collateral_ratio : Option ℕ
  pub unclaimed_short_proceeds_uusd_amount : ℕ
  pub claimable_short_proceeds_uusd_amount : ℕ
  pub claimable_mir_reward_uusd_value : ℕ
  pub claimable_spec_reward_uusd_value : ℕ
  pub uusd_value : ℕ

pub record PositionInfo : Type 0 where
  pub position_open_info : PositionActionInfo
  pub position_close_info : Option PositionActionInfo
  pub cdp_idx : Option ℕ
  pub mirror_asset_cw20_addr : Addr
  pub detailed_info : Option DetailedPositionInfo

-- Mirror's answer about an asset: its least collateral ratio, and its price if it was delisted.
pub record AssetConfig : Type 0 where
  pub min_collateral_ratio : ℕ
  pub end_price : Option ℕ

-- Mirror's answer about a debt position.
pub record CdpResponse : Type 0 where
  pub collateral_amount : ℕ
  pub asset_amount : ℕ
  pub is_short : Bool

-- The contracts that are asked: a position's contract, Mirror's mint, and the oracle, which fails for a price older than the
-- given seconds.
pub record Mirror : Type 0 where
  pub query_position_info : Addr → Result PositionInfo
  pub query_cdp : Addr → ℕ → Result CdpResponse
  pub query_asset_price : Addr → Addr → Option ℕ → Result ℕ
  pub query_asset_config : Addr → Addr → Result AssetConfig

abbrev pub get_mirror_cdp_response : Mirror → Context → ℕ → Result CdpResponse
get_mirror_cdp_response m context cdp_idx = m.query_cdp context.mirror_mint_addr cdp_idx

-- `Ok(response) => Some(rate), _ => None`
abbrev pub rate_of : Result ℕ → Option ℕ
rate_of (ok rate) = some rate
rate_of (err e) = none
rate_of panic = none

abbrev pub price_expire_time : ℕ
price_expire_time = 60

abbrev pub get_mirror_asset_fresh_oracle_uusd_rate : Mirror → Context → Addr → Option ℕ
get_mirror_asset_fresh_oracle_uusd_rate m context mirror_asset_cw20_addr =
    rate_of (
      m.query_asset_price context.mirror_oracle_addr mirror_asset_cw20_addr
        (some price_expire_time))

abbrev pub is_some {ℓ} : {A : Type ℓ} → Option A → Bool
is_some none = false
is_some (some a) = true

abbrev pub is_mirror_asset_delisted : AssetConfig → Bool
is_mirror_asset_delisted config = is_some config.end_price

-- The texts of the source, as constructors.
pub data Reason : Type 0 where
  position_closed cdp_was_preemptively_closed likely_full_liquidation oracle_price_stale : Reason
  delayed_dn_open preemptively_close_cdp raise_target_cr_range cr_below_min cr_above_max : Reason
  delta_above_threshold liquid_uusd_above_threshold looks_good : Reason

pub record ShouldCall : Type 0 where
  pub position_contract : Addr
  pub should_call : Bool
  pub reason : Reason

-- Whether the position has a debt position that Mirror does not know any more.
abbrev pub is_liquidated : Mirror → Context → Option ℕ → Bool
is_liquidated m context none = false
is_liquidated m context (some cdp_idx) = not (is_ok (get_mirror_cdp_response m context cdp_idx))

-- The proceeds of the short position that cannot be claimed yet.
abbrev pub is_pending_unlock : DetailedPositionInfo → Bool
is_pending_unlock info =
    not (info.unclaimed_short_proceeds_uusd_amount == 0)
    && (info.claimable_short_proceeds_uusd_amount == 0)

abbrev pub difference : ℕ → ℕ → ℕ
difference long_amount short_amount =
    if ltb short_amount long_amount then long_amount - short_amount else short_amount - long_amount

-- The uusd that can be put to work: the balance and what can be claimed.
abbrev pub liquid_uusd : DetailedPositionInfo → PositionState → Result ℕ
liquid_uusd info state = do
  with_mir ← add_128 state.uusd_balance info.claimable_mir_reward_uusd_value
  with_spec ← add_128 with_mir info.claimable_spec_reward_uusd_value
  add_128 with_spec info.claimable_short_proceeds_uusd_amount

module _ (h : Host) (m : Mirror)
    (mirror_asset_net_amount_tolerance_ratio liquid_uusd_threshold_ratio : ℕ)
    (position_contract : Addr) where
  abbrev pub answer : Bool → Reason → ShouldCall
  answer should_call reason = record {
    position_contract = position_contract;
    should_call = should_call;
    reason = reason;
  }

  -- The amounts of an open position.
  unfoldable pub judge_amounts : DetailedPositionInfo → Result ShouldCall
  judge_amounts info = do
    state ← unwrap info.state
    tolerated ← h.mul_decimal state.mirror_asset_long_amount mirror_asset_net_amount_tolerance_ratio
    if ltb tolerated (difference state.mirror_asset_long_amount state.mirror_asset_short_amount)
        then ok (answer true delta_above_threshold)
        else (do
          liquid ← liquid_uusd info state
          threshold ← h.mul_decimal info.uusd_value liquid_uusd_threshold_ratio
          if ltb threshold liquid && not (is_pending_unlock info)
              then ok (answer true liquid_uusd_above_threshold)
              else ok (answer false looks_good))

  -- The collateral ratio of an open position.
  unfoldable pub judge_ratio : Context → AssetConfig → DetailedPositionInfo → Result ShouldCall
  judge_ratio context config info = do
    required ← add_128 config.min_collateral_ratio context.collateral_ratio_safety_margin
    if ltb info.target_collateral_ratio_range.min required
        then ok (answer true raise_target_cr_range)
        else (do
          ratio ← unwrap info.collateral_ratio
          if ltb ratio info.target_collateral_ratio_range.min
              then ok (answer true cr_below_min)
              else (if ltb info.target_collateral_ratio_range.max ratio
                    && not (is_pending_unlock info)
                  then ok (answer true cr_above_max)
                  else judge_amounts info))

  -- The mirror asset of an open position.
  unfoldable pub judge_asset :
      State → Context → PositionInfo → DetailedPositionInfo → Result ShouldCall
  judge_asset s context position_info info = do
    config ← m.query_asset_config context.mirror_mint_addr position_info.mirror_asset_cw20_addr
    if unwrap_or
            (s.should_preemptively_close_cdp_mirror_assets position_info.mirror_asset_cw20_addr)
            false
          || is_mirror_asset_delisted config
        then ok (answer true preemptively_close_cdp)
        else judge_ratio context config info

  unfoldable pub judge_position : State → PositionInfo → DetailedPositionInfo → Result ShouldCall
  judge_position s position_info info = do
    context ← load s.context
    if is_liquidated m context position_info.cdp_idx
        then ok (answer true likely_full_liquidation)
        else (if not (
              is_some (
                get_mirror_asset_fresh_oracle_uusd_rate m context
                  position_info.mirror_asset_cw20_addr))
            then ok (answer false oracle_price_stale)
            else (if not (is_some position_info.cdp_idx)
                then ok (answer true delayed_dn_open)
                else judge_asset s context position_info info))

  unfoldable pub judge : State → PositionInfo → Result ShouldCall
  judge s position_info =
      if is_some position_info.position_close_info then ok (answer false position_closed) else (do
        info ← unwrap position_info.detailed_info
        if info.cdp_preemptively_closed
            then ok (answer false cdp_was_preemptively_closed)
            else judge_position s position_info info)

unfoldable pub query_should_call_rebalance_and_reinvest :
    Host → Mirror → State → Position → ℕ → ℕ → Result ShouldCall
query_should_call_rebalance_and_reinvest h m s position tolerance threshold = do
  position_contract ← load (s.position_to_contract_addr (get_position_key position))
  position_info ← m.query_position_info position_contract
  judge h m tolerance threshold position_contract s position_info
