-- ===== src/DeltaNeutralPosition/Rebalance/NetLong.antt =====
-- contracts/delta_neutral_position/src/rebalance.rs, a net long position: the least amount of LP
-- tokens to withdraw, and the amount of the mirror asset to swap for uusd.
use position_managers.Prelude.{
  ℕ, ◌-◌, Bool, ◌||◌, List, [], ◌∷◌, ◌++◌, leb, ltb, ◌==◌, if◌then◌else◌,
}
use position_managers.Cosmwasm.{Addr, Result, ok, ◌>>=◌, add_128, sub_128}
use position_managers.Message.{CosmosMsg}
use position_managers.DeltaNeutralManager.State.{Context}
use position_managers.DeltaNeutralManager.Rebalance.{PositionState}
use position_managers.Chain.{Chain}
use position_managers.DeltaNeutralPosition.Math.{times}
use position_managers.DeltaNeutralPosition.Dex.{swap_cw20_token_for_uusd}
use position_managers.DeltaNeutralPosition.Spectrum.{
  unstake_lp_from_spectrum_and_withdraw_liquidity,
}
use position_managers.DeltaNeutralPosition.Search.{search_leftmost}
use position_managers.DeltaNeutralPosition.Rebalance.Unbonding.{
  Farm, unbond, lp_token_amount_after_withdrawal, rounds,
}

-- Whether swapping all liquid mirror assets after a withdrawal leaves the position net long.
unfoldable pub stays_long : Chain → Farm → PositionState → ℕ → Result Bool
unfolding lp_token_amount_after_withdrawal
stays_long c farm state withdraw_lp_token_amount = do
  let info = state.terraswap_pool_info
  pool_after_swap ← add_128 info.terraswap_pool_mirror_asset_amount state.mirror_asset_balance
  lp_after ← lp_token_amount_after_withdrawal c farm info withdraw_lp_token_amount
  supply_after ← sub_128 info.lp_token_total_supply withdraw_lp_token_amount
  ratio ← c.from_ratio lp_after supply_after
  new_long_farm ← times c pool_after_swap ratio
  ok (ltb state.mirror_asset_short_amount new_long_farm)

-- What is held after the withdrawal, with the messages of it.
pub record Holdings : Type 0 where
  pub messages : List CosmosMsg
  pub mirror_asset_balance : ℕ
  pub pool_mirror_asset_amount : ℕ
  pub lp_token_amount : ℕ
  pub lp_token_total_supply : ℕ

-- `messages.truncate(messages.len() - 1)`
unfoldable pub without_last : List CosmosMsg → List CosmosMsg
without_last [] = []
without_last (m ∷ []) = []
without_last (m ∷ n ∷ ms) = m ∷ without_last (n ∷ ms)

unfoldable pub withdraw_from_long :
    Chain → Context → Addr → Farm → PositionState → ℕ → Result Holdings
unfolding unbond unstake_lp_from_spectrum_and_withdraw_liquidity without_last
withdraw_from_long c context mirror_asset_cw20_addr farm state withdraw_lp_token_amount =
    let info = state.terraswap_pool_info in
    if withdraw_lp_token_amount == 0
    then ok (record {
      messages = [];
      mirror_asset_balance = state.mirror_asset_balance;
      pool_mirror_asset_amount = info.terraswap_pool_mirror_asset_amount;
      lp_token_amount = info.lp_token_amount;
      lp_token_total_supply = info.lp_token_total_supply;
    })
    else (do
      let unstaking =
          unstake_lp_from_spectrum_and_withdraw_liquidity info context.spectrum_mirror_farms_addr
            mirror_asset_cw20_addr withdraw_lp_token_amount
      ratio ← c.from_ratio withdraw_lp_token_amount info.lp_token_total_supply
      withdrawn_mirror_asset ← times c info.terraswap_pool_mirror_asset_amount ratio
      withdrawn_uusd ← times c info.terraswap_pool_uusd_amount ratio
      mirror_asset_balance ← add_128 state.mirror_asset_balance withdrawn_mirror_asset
      pool_mirror_asset ← sub_128 info.terraswap_pool_mirror_asset_amount withdrawn_mirror_asset
      lp_token_amount ← unbond c farm info withdraw_lp_token_amount
      supply ← sub_128 info.lp_token_total_supply withdraw_lp_token_amount
      ok (record {
        messages =
            if withdrawn_mirror_asset == 0 || withdrawn_uusd == 0
            then without_last unstaking
            else unstaking;
        mirror_asset_balance = mirror_asset_balance;
        pool_mirror_asset_amount = pool_mirror_asset;
        lp_token_amount = lp_token_amount;
        lp_token_total_supply = supply;
      }))

-- Whether an offer of mirror assets leaves the position net long or neutral.
unfoldable pub is_not_short : Chain → ℕ → Holdings → ℕ → ℕ → Result Bool
is_not_short c mirror_asset_short_amount holdings lp_ratio offer_mirror_asset_amount = do
  pool_after_swap ← add_128 holdings.pool_mirror_asset_amount offer_mirror_asset_amount
  kept ← sub_128 holdings.mirror_asset_balance offer_mirror_asset_amount
  long_farm ← times c pool_after_swap lp_ratio
  new_long_amount ← add_128 kept long_farm
  ok (leb mirror_asset_short_amount new_long_amount)

-- The first offer that leaves the position net short; the offer made is one less.
unfoldable pub first_short_offer : Chain → ℕ → Holdings → Result ℕ
unfolding search_leftmost is_not_short
first_short_offer c mirror_asset_short_amount holdings = do
  b ← add_128 holdings.mirror_asset_balance 1
  lp_ratio ← c.from_ratio holdings.lp_token_amount holdings.lp_token_total_supply
  search_leftmost (is_not_short c mirror_asset_short_amount holdings lp_ratio) rounds 0 b

unfoldable pub withdrawal_of_long : Chain → Farm → PositionState → Result ℕ
unfolding search_leftmost stays_long
withdrawal_of_long c farm state = do
  b ← add_128 state.terraswap_pool_info.lp_token_amount 1
  search_leftmost (stays_long c farm state) rounds 0 b

unfoldable pub rebalance_net_long :
    Chain → Context → Addr → Farm → PositionState → Result (List CosmosMsg)
unfolding withdrawal_of_long withdraw_from_long first_short_offer swap_cw20_token_for_uusd
rebalance_net_long c context mirror_asset_cw20_addr farm state = do
  withdraw_lp_token_amount ← withdrawal_of_long c farm state
  holdings ← withdraw_from_long c context mirror_asset_cw20_addr farm state withdraw_lp_token_amount
  b ← first_short_offer c state.mirror_asset_short_amount holdings
  if ltb 1 b
      then (do
        (swap_msg, returned) ←
            swap_cw20_token_for_uusd c context.terraswap_factory_addr context.astroport_factory_addr
              mirror_asset_cw20_addr (b - 1)
        ok (holdings.messages ++ (swap_msg ∷ [])))
      else ok holdings.messages
