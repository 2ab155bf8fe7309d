-- ===== src/DeltaNeutralPosition/Util.antt =====
-- contracts/delta_neutral_position/src/util.rs: the state of a position as the chain shows it, and
-- the messages that raise its balances.
use position_managers.Prelude.{
  ℕ, zero, suc, ◌-◌, ◌^◌, Bool, true, false, none, some, List, [], ◌∷◌, unwrap_or, leb, ltb, str_eq,
  if◌then◌else◌,
}
use position_managers.Cosmwasm.{
  Addr, Result, ok, err, panic, ◌>>=◌, load, checked_add, add_128, Env,
}
use position_managers.Message.{CosmosMsg, wasm_execute, cw20_send, redeem_stable, mint_withdraw}
use position_managers.DeltaNeutralManager.State.{Context, FeeCollectionConfig}
use position_managers.DeltaNeutralManager.Rebalance.{
  CdpResponse, TerraswapPoolInfo, PositionState, get_mirror_cdp_response, is_mirror_asset_delisted,
}
use position_managers.Chain.{LockInfo, SpectrumReward, MirrorReward, Chain}
use position_managers.DeltaNeutralPosition.Math.{times}
use position_managers.DeltaNeutralPosition.State.{State}
use position_managers.DeltaNeutralPosition.Dex.{cw20_uusd_pair_asset_info, cw20_asset}
use position_managers.DeltaNeutralPosition.Spectrum.{
  unstake_lp_from_spectrum_and_withdraw_liquidity,
}

-- MIN_TARGET_CR_RANGE_WIDTH, "0.4"
abbrev pub min_target_cr_range_width : ℕ
min_target_cr_range_width = 400_000_000_000_000_000

unfoldable pub get_uusd_balance : Chain → Env → Result ℕ
get_uusd_balance c env = c.query_balance env.contract_address "uusd"

unfoldable pub get_cdp_uusd_lock_info_result : Chain → State → Context → Result LockInfo
get_cdp_uusd_lock_info_result c s context = do
  cdp_idx ← load s.cdp_idx
  c.lock_info context.mirror_lock_addr cdp_idx

-- `response.map_or(0, ..)`: what is known of a debt position, nothing of one that is gone.
unfoldable pub short_amount_of : Result CdpResponse → ℕ
short_amount_of (ok cdp) = cdp.asset_amount
short_amount_of (err e) = 0
short_amount_of panic = 0

unfoldable pub collateral_amount_of : Result CdpResponse → ℕ
collateral_amount_of (ok cdp) = cdp.collateral_amount
collateral_amount_of (err e) = 0
collateral_amount_of panic = 0

-- The last entry of the mirror asset, or nothing: (LP tokens, auto-compound shares).
unfoldable pub staked : Addr → List SpectrumReward → ℕ × ℕ → ℕ × ℕ
staked mirror_asset [] acc = acc
staked mirror_asset (info ∷ infos) acc =
    staked mirror_asset infos (
      if str_eq info.asset_token mirror_asset
      then (info.bond_amount, info.auto_bond_share)
      else acc)

unfoldable pub get_position_state : Chain → State → Env → Context → Result PositionState
unfolding short_amount_of collateral_amount_of staked get_uusd_balance
get_position_state c s env context = do
  cdp_idx ← load s.cdp_idx
  let cdp = get_mirror_cdp_response c.mirror context cdp_idx
  collateral_rate ←
      c.collateral_rate context.mirror_collateral_oracle_addr context.anchor_ust_cw20_addr
  mirror_asset ← load s.mirror_asset_cw20_addr
  rewards ←
      c.spectrum_rewards context.spectrum_mirror_farms_addr env.contract_address (some mirror_asset)
  let (lp_token_amount, shares) = staked mirror_asset rewards (0, 0)
  let assets = cw20_uusd_pair_asset_info mirror_asset
  pair ← c.terraswap_pair context.terraswap_factory_addr assets
  pair_addr ← c.host.addr_validate pair.contract_addr
  lp_token ← c.host.addr_validate pair.liquidity_token
  supply ← c.query_supply lp_token
  pool_mirror_asset ← c.query_pool assets.0 pair_addr
  pool_uusd ← c.query_pool assets.1 pair_addr
  mirror_asset_balance ← c.anchor.query_token_balance mirror_asset env.contract_address
  mirror_asset_long_farm ← c.multiply_ratio lp_token_amount pool_mirror_asset supply
  uusd_balance ← get_uusd_balance c env
  uusd_long_farm ← c.multiply_ratio lp_token_amount pool_uusd supply
  mirror_asset_long_amount ← checked_add 128 mirror_asset_balance mirror_asset_long_farm
  collateral_uusd_value ← times c (collateral_amount_of cdp) collateral_rate
  oracle_price ← c.mirror.query_asset_price context.mirror_oracle_addr mirror_asset none
  ok (record {
    uusd_balance = uusd_balance;
    uusd_long_farm = uusd_long_farm;
    mirror_asset_short_amount = short_amount_of cdp;
    mirror_asset_balance = mirror_asset_balance;
    mirror_asset_long_farm = mirror_asset_long_farm;
    mirror_asset_long_amount = mirror_asset_long_amount;
    collateral_anchor_ust_amount = collateral_amount_of cdp;
    collateral_uusd_value = collateral_uusd_value;
    mirror_asset_oracle_price = oracle_price;
    anchor_ust_oracle_price = collateral_rate;
    terraswap_pool_info = record {
      lp_token_amount = lp_token_amount;
      lp_token_cw20_addr = pair.liquidity_token;
      lp_token_total_supply = supply;
      terraswap_pair_addr = pair.contract_addr;
      terraswap_pool_mirror_asset_amount = pool_mirror_asset;
      terraswap_pool_uusd_amount = pool_uusd;
      spectrum_auto_compound_share_amount = shares;
    };
  })

-- The mirror assets that Terraswap gives for some LP tokens.
unfoldable pub redeemed_mirror_asset : Chain → TerraswapPoolInfo → ℕ → Result ℕ
redeemed_mirror_asset c info lp_token_amount = do
  share_ratio ← c.from_ratio lp_token_amount info.lp_token_total_supply
  times c info.terraswap_pool_mirror_asset_amount share_ratio

-- `while redeemed(lp) < target { lp += 1 }`, for a number of rounds.
unfoldable pub raise_lp_amount : (ℕ → Result ℕ) → ℕ → ℕ → ℕ → Result ℕ
raise_lp_amount redeemed target zero lp = panic
raise_lp_amount redeemed target (suc rounds) lp = redeemed lp >>= λ amount.
    elim (ltb amount target) [
      | true ↦ add_128 lp 1 >>= λ next. raise_lp_amount redeemed target rounds next
      | false ↦ ok lp
    ]

-- As many rounds as a Uint128 can be raised.
unfoldable pub all_rounds : ℕ
all_rounds = 2 ^ 128

unfoldable pub increase_mirror_asset_balance_from_long_farm :
    Chain → PositionState → Addr → Addr → ℕ → Result (List CosmosMsg)
unfolding redeemed_mirror_asset raise_lp_amount all_rounds
increase_mirror_asset_balance_from_long_farm c state spectrum_mirror_farms_addr
      mirror_asset_cw20_addr target_mirror_asset_balance =
    if leb target_mirror_asset_balance state.mirror_asset_balance then ok [] else (do
      let withdraw_mirror_asset_amount = target_mirror_asset_balance - state.mirror_asset_balance
      estimate ←
          c.multiply_ratio state.terraswap_pool_info.lp_token_amount withdraw_mirror_asset_amount
            state.mirror_asset_long_farm
      lp ←
          raise_lp_amount (redeemed_mirror_asset c state.terraswap_pool_info)
            withdraw_mirror_asset_amount all_rounds estimate
      ok (
          unstake_lp_from_spectrum_and_withdraw_liquidity state.terraswap_pool_info
            spectrum_mirror_farms_addr mirror_asset_cw20_addr lp))

unfoldable pub increase_uusd_balance_from_aust_collateral : Context → ℕ → ℕ → List CosmosMsg
increase_uusd_balance_from_aust_collateral context cdp_idx anchor_ust_amount =
    wasm_execute context.mirror_mint_addr
      (mint_withdraw cdp_idx (cw20_asset context.anchor_ust_cw20_addr anchor_ust_amount)) []
    ∷ wasm_execute context.anchor_ust_cw20_addr
        (cw20_send context.anchor_market_addr anchor_ust_amount redeem_stable) []
    ∷ []

unfoldable pub sum_spec : List SpectrumReward → ℕ → Result ℕ
sum_spec [] acc = ok acc
sum_spec (r ∷ rewards) acc = add_128 acc r.pending_spec_reward >>= λ acc'. sum_spec rewards acc'

unfoldable pub find_unclaimed_spec_amount : Chain → Env → Context → Result ℕ
unfolding sum_spec
find_unclaimed_spec_amount c env context = do
  rewards ← c.spectrum_rewards context.spectrum_mirror_farms_addr env.contract_address none
  sum_spec rewards 0

unfoldable pub sum_mir : List MirrorReward → ℕ → Result ℕ
sum_mir [] acc = ok acc
sum_mir (r ∷ rewards) acc = add_128 acc r.pending_reward >>= λ acc'. sum_mir rewards acc'

unfoldable pub find_unclaimed_mir_amount : Chain → Env → Context → Result ℕ
unfolding sum_mir
find_unclaimed_mir_amount c env context = do
  rewards ← c.mirror_rewards context.mirror_staking_addr env.contract_address none
  sum_mir rewards 0

unfoldable pub find_cw20_token_uusd_value : Chain → Addr → Addr → ℕ → Result ℕ
find_cw20_token_uusd_value c terraswap_factory_addr cw20_token_addr amount = do
  pair ← c.terraswap_pair terraswap_factory_addr (cw20_uusd_pair_asset_info cw20_token_addr)
  c.terraswap_simulate pair.contract_addr (cw20_asset cw20_token_addr amount)

unfoldable pub get_fee_collection_config_from_manager : Chain → State → Result FeeCollectionConfig
get_fee_collection_config_from_manager c s = do
  manager ← load s.manager
  c.manager_fee_collection_config manager

unfoldable pub should_close_cdp : Chain → State → Addr → Addr → Result Bool
should_close_cdp c s mirror_mint_addr mirror_asset_cw20_addr = do
  manager ← load s.manager
  preemptively ← c.manager_should_close manager mirror_asset_cw20_addr
  if unwrap_or preemptively false then ok true else (do
    config ← c.mirror.query_asset_config mirror_mint_addr mirror_asset_cw20_addr
    ok (is_mirror_asset_delisted config))
