-- ===== src/DeltaNeutralPosition/Rebalance.antt =====
-- contracts/delta_neutral_position/src/rebalance.rs: claiming rewards, and the least withdrawal and
-- the swap that bring a position back to neutral.
pub mod Unbonding
pub mod NetLong
pub mod NetShort
use position_managers.Prelude.{
  ℕ, ◌-◌, Bool, ◌&&◌, Option, none, some, List, [], ◌∷◌, ◌++◌, leb, ltb, ◌==◌, if◌then◌else◌,
}
use position_managers.Cosmwasm.{Addr, Result, ok, err, panic, ◌>>=◌, load, unwrap, add_128, Env}
use position_managers.Message.{
  CosmosMsg, wasm_execute, gov_mint, farm_withdraw, staking_withdraw, unlock_position_funds,
}
use position_managers.DeltaNeutralManager.State.{Context}
use position_managers.DeltaNeutralManager.Rebalance.{PositionState}
use position_managers.Chain.{Chain, LockInfo}
use position_managers.DeltaNeutralPosition.State.{State}
use position_managers.DeltaNeutralPosition.Dex.{swap_cw20_token_for_uusd}
use position_managers.DeltaNeutralPosition.Spectrum.{
  get_spectrum_mirror_pool_info, get_spectrum_mirror_lp_balance,
}
use position_managers.DeltaNeutralPosition.Util.{
  find_unclaimed_spec_amount, find_unclaimed_mir_amount, get_cdp_uusd_lock_info_result,
  get_position_state,
}
use position_managers.DeltaNeutralPosition.Rebalance.Unbonding.{Farm}
use position_managers.DeltaNeutralPosition.Rebalance.NetLong.{rebalance_net_long}
use position_managers.DeltaNeutralPosition.Rebalance.NetShort.{rebalance_net_short}

-- Messages so far, and the uusd that they bring in.
abbrev pub Claims : Type 0
Claims = List CosmosMsg × ℕ

unfoldable pub claim_spec : Chain → Context → ℕ → Claims → Result Claims
unfolding swap_cw20_token_for_uusd
claim_spec c context spec_reward (messages, increase) =
    if ltb 0 spec_reward
    then (do
      (swap_msg, return_amount) ←
          swap_cw20_token_for_uusd c context.terraswap_factory_addr context.astroport_factory_addr
            context.spectrum_cw20_addr spec_reward
      total ← add_128 increase return_amount
      ok (
        messages
            ++ (wasm_execute context.spectrum_gov_addr gov_mint []
                ∷ wasm_execute context.spectrum_mirror_farms_addr farm_withdraw []
                ∷ swap_msg
                ∷ []),
        total,
      ))
    else ok (messages, increase)

unfoldable pub claim_mir : Chain → Context → ℕ → Claims → Result Claims
unfolding swap_cw20_token_for_uusd
claim_mir c context mir_reward (messages, increase) =
    if ltb 0 mir_reward
    then (do
      (swap_msg, return_amount) ←
          swap_cw20_token_for_uusd c context.terraswap_factory_addr context.astroport_factory_addr
            context.mirror_cw20_addr mir_reward
      total ← add_128 increase return_amount
      ok (
        messages ++ (wasm_execute context.mirror_staking_addr staking_withdraw [] ∷ swap_msg ∷ []),
        total,
      ))
    else ok (messages, increase)

-- `if let Ok(response) = .. { if response.unlock_time <= now { .. } }`
unfoldable pub claim_unlocked : State → Env → Context → Result LockInfo → Claims → Result Claims
claim_unlocked s env context (ok lock) (messages, increase) =
    if leb lock.unlock_time env.block_time
    then (do
      cdp_idx ← load s.cdp_idx
      total ← add_128 increase lock.locked_amount
      ok (
        messages
            ++ (wasm_execute context.mirror_lock_addr (unlock_position_funds (cdp_idx ∷ [])) []
                ∷ []),
        total,
      ))
    else ok (messages, increase)
claim_unlocked s env context (err e) claims = ok claims
claim_unlocked s env context panic claims = panic

unfoldable pub claim_and_increase_uusd_balance : Chain → State → Env → Context → Result Claims
unfolding find_unclaimed_spec_amount find_unclaimed_mir_amount claim_spec claim_mir claim_unlocked
    get_cdp_uusd_lock_info_result
claim_and_increase_uusd_balance c s env context = do
  spec_reward ← find_unclaimed_spec_amount c env context
  mir_reward ← find_unclaimed_mir_amount c env context
  with_spec ← claim_spec c context spec_reward ([], 0)
  with_mir ← claim_mir c context mir_reward with_spec
  claim_unlocked s env context (get_cdp_uusd_lock_info_result c s context) with_mir

-- Spectrum's pool is asked for only if LP tokens are staked there.
unfoldable pub get_farm : Chain → Context → Addr → ℕ → Result Farm
unfolding get_spectrum_mirror_pool_info get_spectrum_mirror_lp_balance
get_farm c context mirror_asset_cw20_addr lp_token_amount =
    if lp_token_amount == 0
    then ok (record { spectrum_pool_info = none; spectrum_mirror_pool_lp_balance = 0 })
    else (do
      pool ←
          get_spectrum_mirror_pool_info c context.spectrum_mirror_farms_addr mirror_asset_cw20_addr
      lp_balance ←
          get_spectrum_mirror_lp_balance c context.mirror_staking_addr
            context.spectrum_mirror_farms_addr mirror_asset_cw20_addr
      ok (record { spectrum_pool_info = some pool; spectrum_mirror_pool_lp_balance = lp_balance }))

unfoldable pub achieve_delta_neutral_from_state :
    Chain → State → Context → PositionState → Result (List CosmosMsg)
unfolding get_farm rebalance_net_long rebalance_net_short
achieve_delta_neutral_from_state c s context state = do
  mirror_asset_cw20_addr ← load s.mirror_asset_cw20_addr
  farm ← get_farm c context mirror_asset_cw20_addr state.terraswap_pool_info.lp_token_amount
  if ltb state.mirror_asset_short_amount state.mirror_asset_long_amount
      then rebalance_net_long c context mirror_asset_cw20_addr farm state
      else (if ltb state.mirror_asset_long_amount state.mirror_asset_short_amount
          then rebalance_net_short c context mirror_asset_cw20_addr farm state
          else ok [])

unfoldable pub achieve_delta_neutral : Chain → State → Env → Context → Result (List CosmosMsg)
unfolding get_position_state claim_and_increase_uusd_balance achieve_delta_neutral_from_state
achieve_delta_neutral c s env context = do
  state ← get_position_state c s env context
  (messages, increase) ← claim_and_increase_uusd_balance c s env context
  uusd_balance ← add_128 state.uusd_balance increase
  more ← achieve_delta_neutral_from_state c s context (record state { uusd_balance = uusd_balance })
  ok (messages ++ more)
