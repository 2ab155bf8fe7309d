-- ===== src/DeltaNeutralPosition/Info.antt =====
-- contracts/delta_neutral_position/src/util.rs: the answer of a position about itself.
use position_managers.Prelude.{
  ℕ, ◌-◌, false, Option, none, some, leb, ltb, ◌==◌, unwrap_or, if◌then◌else◌,
}
use position_managers.Cosmwasm.{Result, ok, err, panic, ◌>>=◌, load, checked_add, Env}
use position_managers.Anchor.{get_anchor_ust_balance_with_uusd_value}
use position_managers.Dex.{compute_terraswap_offer_amount}
use position_managers.DeltaNeutralManager.State.{Context}
use position_managers.DeltaNeutralManager.Rebalance.{
  PositionState, DetailedPositionInfo, PositionInfo, is_some,
}
use position_managers.Chain.{Chain, LockInfo}
use position_managers.DeltaNeutralPosition.Math.{times}
use position_managers.DeltaNeutralPosition.State.{State}
use position_managers.DeltaNeutralPosition.Dex.{get_terraswap_mirror_asset_uusd_liquidity_info}
use position_managers.DeltaNeutralPosition.Spectrum.{checked_sub}
use position_managers.DeltaNeutralPosition.Util.{
  get_cdp_uusd_lock_info_result, get_position_state, find_unclaimed_spec_amount,
  find_unclaimed_mir_amount, find_cw20_token_uusd_value,
}
use position_managers.DeltaNeutralPosition.Closing.{is_cdp_inactive}

-- (locked, claimable) proceeds of the short position
unfoldable pub short_proceeds : Env → Result LockInfo → ℕ × ℕ
short_proceeds env (ok lock) =
    (lock.locked_amount, if leb lock.unlock_time env.block_time then lock.locked_amount else 0)
short_proceeds env (err e) = (0, 0)
short_proceeds env panic = (0, 0)

-- The value with that of the mirror assets: the net long ones sold, or the net short ones bought.
unfoldable pub add_mirror_asset_value : Chain → State → Context → PositionState → ℕ → Result ℕ
unfolding find_cw20_token_uusd_value get_terraswap_mirror_asset_uusd_liquidity_info
    compute_terraswap_offer_amount
add_mirror_asset_value c s context state value =
    if ltb state.mirror_asset_short_amount state.mirror_asset_long_amount
    then (do
      mirror_asset_cw20_addr ← load s.mirror_asset_cw20_addr
      sold ←
          find_cw20_token_uusd_value c context.terraswap_factory_addr mirror_asset_cw20_addr
            (state.mirror_asset_long_amount - state.mirror_asset_short_amount)
      checked_add 128 value sold)
    else (if ltb state.mirror_asset_long_amount state.mirror_asset_short_amount
        then (do
          mirror_asset_cw20_addr ← load s.mirror_asset_cw20_addr
          (pair, pool_mirror_asset, pool_uusd) ←
              get_terraswap_mirror_asset_uusd_liquidity_info c context.terraswap_factory_addr
                mirror_asset_cw20_addr
          cost ←
              compute_terraswap_offer_amount c.decimal256 pool_mirror_asset pool_uusd
                (state.mirror_asset_short_amount - state.mirror_asset_long_amount)
          checked_sub value cost)
        else ok value)

unfoldable pub collateral_ratio_of : Chain → PositionState → Result (Option ℕ)
collateral_ratio_of c state = if state.mirror_asset_short_amount == 0 then ok none else (do
  debt_value ← times c state.mirror_asset_short_amount state.mirror_asset_oracle_price
  ratio ← c.from_ratio state.collateral_uusd_value debt_value
  ok (some ratio))

-- All funds are in Anchor Earn.
unfoldable pub inactive_info : Chain → State → Env → Context → Result DetailedPositionInfo
unfolding get_anchor_ust_balance_with_uusd_value
inactive_info c s env context = do
  (balance, value) ←
      get_anchor_ust_balance_with_uusd_value c.anchor env context.anchor_market_addr
        context.anchor_ust_cw20_addr
  range ← load s.target_collateral_ratio_range
  ok (record {
    cdp_preemptively_closed = unwrap_or s.cdp_preemptively_closed false;
    state = none;
    target_collateral_ratio_range = range;
    collateral_ratio = none;
    unclaimed_short_proceeds_uusd_amount = 0;
    claimable_short_proceeds_uusd_amount = 0;
    claimable_mir_reward_uusd_value = 0;
    claimable_spec_reward_uusd_value = 0;
    uusd_value = value;
  })

unfoldable pub active_info : Chain → State → Env → Context → Result DetailedPositionInfo
unfolding get_position_state short_proceeds get_cdp_uusd_lock_info_result find_unclaimed_spec_amount
    find_unclaimed_mir_amount find_cw20_token_uusd_value add_mirror_asset_value collateral_ratio_of
active_info c s env context = do
  state ← get_position_state c s env context
  let (unclaimed, claimable) = short_proceeds env (get_cdp_uusd_lock_info_result c s context)
  native_and_farm ← checked_add 128 state.uusd_balance state.uusd_long_farm
  with_proceeds ← checked_add 128 native_and_farm unclaimed
  with_collateral ← checked_add 128 with_proceeds state.collateral_uusd_value
  spec ← find_unclaimed_spec_amount c env context
  spec_value ←
      find_cw20_token_uusd_value c context.terraswap_factory_addr context.spectrum_cw20_addr spec
  with_spec ← checked_add 128 with_collateral spec_value
  mir ← find_unclaimed_mir_amount c env context
  mir_value ←
      find_cw20_token_uusd_value c context.terraswap_factory_addr context.mirror_cw20_addr mir
  with_mir ← checked_add 128 with_spec mir_value
  value ← add_mirror_asset_value c s context state with_mir
  collateral_ratio ← collateral_ratio_of c state
  range ← load s.target_collateral_ratio_range
  ok (record {
    cdp_preemptively_closed = unwrap_or s.cdp_preemptively_closed false;
    state = some state;
    target_collateral_ratio_range = range;
    collateral_ratio = collateral_ratio;
    unclaimed_short_proceeds_uusd_amount = unclaimed;
    claimable_short_proceeds_uusd_amount = claimable;
    claimable_mir_reward_uusd_value = mir_value;
    claimable_spec_reward_uusd_value = spec_value;
    uusd_value = value;
  })

unfoldable pub detailed_info_of :
    Chain → State → Env → Context → Result (Option DetailedPositionInfo)
unfolding is_cdp_inactive inactive_info active_info
detailed_info_of c s env context =
    if is_some s.position_close_info
    then ok none
    else (if is_cdp_inactive s
        then (inactive_info c s env context >>= λ info. ok (some info))
        else (active_info c s env context >>= λ info. ok (some info)))

unfoldable pub query_position_info : Chain → State → Env → Context → Result PositionInfo
unfolding detailed_info_of
query_position_info c s env context = do
  position_open_info ← load s.position_open_info
  mirror_asset_cw20_addr ← load s.mirror_asset_cw20_addr
  detailed_info ← detailed_info_of c s env context
  ok (record {
    position_open_info = position_open_info;
    position_close_info = s.position_close_info;
    cdp_idx = s.cdp_idx;
    mirror_asset_cw20_addr = mirror_asset_cw20_addr;
    detailed_info = detailed_info;
  })
