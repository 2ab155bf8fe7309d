-- ===== src/DeltaNeutralPosition/Liquidity.antt =====
-- contracts/delta_neutral_position/src/contract.rs: pairing uusd with the mirror asset for
-- Terraswap's liquidity tokens, which are staked in Spectrum's farm.
use position_managers.Prelude.{ℕ, not, ◌||◌, List, [], ◌∷◌, leb, ◌==◌, if◌then◌else◌}
use position_managers.Cosmwasm.{Addr, Result, ok, ◌>>=◌, load, Env}
use position_managers.Message.{
  CosmosMsg, wasm_execute, cw20_send, cw20_increase_allowance, farm_bond, pair_provide_liquidity,
  Response, plain_messages,
}
use position_managers.AnchorEarnProxy.{uusd, uusd_coin, decimal_one}
use position_managers.DeltaNeutralManager.State.{Context}
use position_managers.DeltaNeutralManager.Rebalance.{PositionState, TerraswapPoolInfo}
use position_managers.Chain.{Chain}
use position_managers.DeltaNeutralPosition.Math.{times}
use position_managers.DeltaNeutralPosition.State.{State}
use position_managers.DeltaNeutralPosition.Dex.{
  cw20_asset, compute_terraswap_liquidity_token_mint_amount,
}
use position_managers.DeltaNeutralPosition.Spectrum.{check_spectrum_mirror_farm_existence}
use position_managers.DeltaNeutralPosition.Util.{get_position_state}

-- The amounts of uusd and of the mirror asset that are paired, in the pool's proportion.
unfoldable pub provide_amounts : Chain → PositionState → Result (ℕ × ℕ)
provide_amounts c state = do
  let info = state.terraswap_pool_info
  uusd_ratio ← c.from_ratio state.uusd_balance info.terraswap_pool_uusd_amount
  mirror_asset_ratio ←
      c.from_ratio state.mirror_asset_balance info.terraswap_pool_mirror_asset_amount
  let ratio = if leb uusd_ratio mirror_asset_ratio then uusd_ratio else mirror_asset_ratio
  uusd_provide_amount ← times c info.terraswap_pool_uusd_amount ratio
  mirror_asset_provide_amount ← times c info.terraswap_pool_mirror_asset_amount ratio
  ok (uusd_provide_amount, mirror_asset_provide_amount)

unfoldable pub provide_messages : Context → TerraswapPoolInfo → Addr → ℕ → ℕ → ℕ → List CosmosMsg
provide_messages context info mirror_asset_cw20_addr uusd_amount mirror_asset_amount
      lp_token_amount =
    wasm_execute mirror_asset_cw20_addr
      (cw20_increase_allowance info.terraswap_pair_addr mirror_asset_amount) []
    ∷ wasm_execute info.terraswap_pair_addr
        (pair_provide_liquidity (cw20_asset mirror_asset_cw20_addr mirror_asset_amount)
          (uusd uusd_amount))
        (uusd_coin uusd_amount ∷ [])
    ∷ wasm_execute info.lp_token_cw20_addr
        (cw20_send context.spectrum_mirror_farms_addr lp_token_amount
          (farm_bond mirror_asset_cw20_addr decimal_one))
        []
    ∷ []

unfoldable pub provide : Chain → Context → PositionState → Addr → Result (List CosmosMsg)
unfolding provide_amounts compute_terraswap_liquidity_token_mint_amount provide_messages
provide c context state mirror_asset_cw20_addr = do
  let info = state.terraswap_pool_info
  (uusd_amount, mirror_asset_amount) ← provide_amounts c state
  if uusd_amount == 0 || mirror_asset_amount == 0 then ok [] else (do
    lp_token_amount ←
        compute_terraswap_liquidity_token_mint_amount c uusd_amount mirror_asset_amount
          info.terraswap_pool_uusd_amount info.terraswap_pool_mirror_asset_amount
          info.lp_token_total_supply
    ok (
        if lp_token_amount == 0
        then []
        else provide_messages context info mirror_asset_cw20_addr uusd_amount mirror_asset_amount
            lp_token_amount))

unfoldable pub pair_uusd_with_mirror_asset_to_provide_liquidity_and_stake :
    Chain → State → Env → Context → Result Response
unfolding get_position_state check_spectrum_mirror_farm_existence provide
pair_uusd_with_mirror_asset_to_provide_liquidity_and_stake c s env context = do
  state ← get_position_state c s env context
  mirror_asset_cw20_addr ← load s.mirror_asset_cw20_addr
  if state.mirror_asset_balance == 0 || state.uusd_balance == 0 then ok [] else (do
    exists ← check_spectrum_mirror_farm_existence c context mirror_asset_cw20_addr
    if not exists then ok [] else (do
      messages ← provide c context state mirror_asset_cw20_addr
      ok (plain_messages messages)))
