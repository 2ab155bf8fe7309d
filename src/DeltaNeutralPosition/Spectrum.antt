-- ===== src/DeltaNeutralPosition/Spectrum.antt =====
-- contracts/delta_neutral_position/src/spectrum_util.rs: shares of Spectrum's auto-compounding farm.
use position_managers.Prelude.{
  some, ℕ, ◌-◌, Bool, ◌||◌, List, [], ◌∷◌, ◌++◌, leb, ltb, ◌==◌, if◌then◌else◌,
}
use position_managers.Cosmwasm.{
  Addr, Bytes, Result, ok, err, panic, ◌>>=◌, unwrap, overflow, add_128, sub_128,
}
use position_managers.Message.{CosmosMsg, wasm_execute, cw20_send, withdraw_liquidity, farm_unbond}
use position_managers.DeltaNeutralManager.State.{Context}
use position_managers.DeltaNeutralManager.Rebalance.{TerraswapPoolInfo}
use position_managers.Chain.{MirrorReward, SpectrumPool, Chain}
use position_managers.DeltaNeutralPosition.Dex.{unwrap_result}

-- `checked_sub`, of which some callers unwrap the error.
abbrev pub checked_sub : ℕ → ℕ → Result ℕ
checked_sub a b = if leb b a then ok (a - b) else err overflow

unfoldable pub calc_auto_bond_share : Chain → SpectrumPool → ℕ → ℕ → Result ℕ
unfolding unwrap_result
calc_auto_bond_share c pool auto_bond_amount lp_balance = do
  total_auto_bond_amount ← sub_128 lp_balance pool.total_stake_bond_amount
  if pool.total_auto_bond_share == 0 || total_auto_bond_amount == 0
      then ok auto_bond_amount
      else c.multiply_ratio auto_bond_amount pool.total_auto_bond_share total_auto_bond_amount

unfoldable pub calc_user_auto_balance : Chain → SpectrumPool → ℕ → ℕ → Result ℕ
calc_user_auto_balance c pool lp_balance auto_bond_share =
    if pool.total_auto_bond_share == 0 then ok 0 else (do
      auto_balance ← sub_128 lp_balance pool.total_stake_bond_amount
      c.multiply_ratio auto_balance auto_bond_share pool.total_auto_bond_share)

unfoldable pub get_spectrum_mirror_pool_info : Chain → Addr → Addr → Result SpectrumPool
get_spectrum_mirror_pool_info c spectrum_mirror_farms_addr mirror_asset_cw20_addr = do
  key ← c.host.addr_canonicalize mirror_asset_cw20_addr
  pool_info ← c.spectrum_pool spectrum_mirror_farms_addr key
  unwrap pool_info

-- `reward_infos[0]`
unfoldable pub first_bond_amount : List MirrorReward → Result ℕ
first_bond_amount [] = panic
first_bond_amount (reward ∷ rewards) = ok reward.bond_amount

unfoldable pub get_spectrum_mirror_lp_balance : Chain → Addr → Addr → Addr → Result ℕ
unfolding first_bond_amount
get_spectrum_mirror_lp_balance c mirror_staking_addr spectrum_mirror_farms_addr
      mirror_asset_cw20_addr =
    do
      rewards ←
          c.mirror_rewards mirror_staking_addr spectrum_mirror_farms_addr
            (some mirror_asset_cw20_addr)
      first_bond_amount rewards

-- The shares that an unbonding takes, rounded up to what the amount needs.
unfoldable pub shares_to_unbond : Chain → SpectrumPool → ℕ → ℕ → Result ℕ
unfolding calc_auto_bond_share calc_user_auto_balance
shares_to_unbond c pool lp_balance withdraw_lp_token_amount = do
  auto_bond_share ← calc_auto_bond_share c pool withdraw_lp_token_amount lp_balance
  user_balance ← calc_user_auto_balance c pool lp_balance auto_bond_share
  if ltb user_balance withdraw_lp_token_amount
      then add_128 auto_bond_share 1
      else ok auto_bond_share

unfoldable pub simulate_spectrum_mirror_farm_unbond : Chain → ℕ → SpectrumPool → ℕ → ℕ → Result ℕ
unfolding shares_to_unbond
simulate_spectrum_mirror_farm_unbond c lp_balance pool spectrum_auto_compound_share_amount
      withdraw_lp_token_amount =
    do
      auto_bond_share ← shares_to_unbond c pool lp_balance withdraw_lp_token_amount
      total_auto_bond_share ← checked_sub pool.total_auto_bond_share auto_bond_share
      lp_balance_after ← sub_128 lp_balance withdraw_lp_token_amount
      shares_after ← sub_128 spectrum_auto_compound_share_amount auto_bond_share
      calc_user_auto_balance c
          (record {
            total_auto_bond_share = total_auto_bond_share;
            total_stake_bond_amount = pool.total_stake_bond_amount;
          })
          lp_balance_after shares_after

-- "\u{0}\u{9}pool_info"
abbrev pub pool_info_prefix : Bytes
pool_info_prefix = 0 ∷ 9 ∷ 112 ∷ 111 ∷ 111 ∷ 108 ∷ 95 ∷ 105 ∷ 110 ∷ 102 ∷ 111 ∷ []

unfoldable pub check_spectrum_mirror_farm_existence : Chain → Context → Addr → Result Bool
check_spectrum_mirror_farm_existence c context mirror_asset_cw20_addr = do
  key ← unwrap_result (c.host.addr_canonicalize mirror_asset_cw20_addr)
  unwrap_result (c.has_raw_key context.spectrum_mirror_farms_addr (pool_info_prefix ++ key))

unfoldable pub unstake_lp_from_spectrum_and_withdraw_liquidity :
    TerraswapPoolInfo → Addr → Addr → ℕ → List CosmosMsg
unstake_lp_from_spectrum_and_withdraw_liquidity info spectrum_mirror_farms_addr
      mirror_asset_cw20_addr withdraw_lp_token_amount =
    wasm_execute spectrum_mirror_farms_addr
      (farm_unbond mirror_asset_cw20_addr withdraw_lp_token_amount) []
    ∷ wasm_execute info.lp_token_cw20_addr
        (cw20_send info.terraswap_pair_addr withdraw_lp_token_amount withdraw_liquidity) []
    ∷ []
