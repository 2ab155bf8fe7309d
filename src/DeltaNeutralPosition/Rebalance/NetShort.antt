-- ===== src/DeltaNeutralPosition/Rebalance/NetShort.antt =====
-- contracts/delta_neutral_position/src/rebalance.rs, a net short position: the least amount of LP
-- tokens to withdraw, and the least amount of uusd to swap for the mirror asset.
use position_managers.Prelude.{ℕ, Bool, List, [], ◌∷◌, ◌++◌, ltb, ◌==◌, if◌then◌else◌}
use position_managers.Cosmwasm.{Addr, Result, ok, ◌>>=◌, add_128, sub_128}
use position_managers.Message.{CosmosMsg, wasm_execute, pair_swap}
use position_managers.AnchorEarnProxy.{uusd, uusd_coin}
use position_managers.DeltaNeutralManager.State.{Context}
use position_managers.DeltaNeutralManager.Rebalance.{PositionState}
use position_managers.Chain.{Chain}
use position_managers.DeltaNeutralPosition.Math.{times}
use position_managers.DeltaNeutralPosition.Dex.{simulate_terraswap_swap}
use position_managers.DeltaNeutralPosition.Spectrum.{
  unstake_lp_from_spectrum_and_withdraw_liquidity,
}
use position_managers.DeltaNeutralPosition.Search.{search_leftmost}
use position_managers.DeltaNeutralPosition.Rebalance.Unbonding.{
  Farm, unbond, lp_token_amount_after_withdrawal, rounds,
}

-- Whether swapping all liquid uusd after a withdrawal leaves the position net short.
unfoldable pub stays_short : Chain → Farm → PositionState → ℕ → Result Bool
unfolding lp_token_amount_after_withdrawal simulate_terraswap_swap
stays_short c farm state withdraw_lp_token_amount = do
  let info = state.terraswap_pool_info
  fraction ← c.from_ratio withdraw_lp_token_amount info.lp_token_total_supply
  withdrawn_mirror_asset ← times c info.terraswap_pool_mirror_asset_amount fraction
  withdrawn_uusd ← times c info.terraswap_pool_uusd_amount fraction
  pool_mirror_asset ← sub_128 info.terraswap_pool_mirror_asset_amount withdrawn_mirror_asset
  pool_uusd ← sub_128 info.terraswap_pool_uusd_amount withdrawn_uusd
  lp_after ← lp_token_amount_after_withdrawal c farm info withdraw_lp_token_amount
  offer ← add_128 withdrawn_uusd state.uusd_balance
  (pool_uusd_after, pool_mirror_asset_after, returned) ←
      simulate_terraswap_swap c pool_uusd pool_mirror_asset offer
  supply_after ← sub_128 info.lp_token_total_supply withdraw_lp_token_amount
  ratio ← c.from_ratio lp_after supply_after
  long_farm ← times c pool_mirror_asset_after ratio
  liquid ← add_128 state.mirror_asset_balance withdrawn_mirror_asset
  swapped ← add_128 liquid returned
  long_amount ← add_128 swapped long_farm
  ok (ltb long_amount state.mirror_asset_short_amount)

-- What is held after the withdrawal, with the messages of it.
pub record Reserves : Type 0 where
  pub messages : List CosmosMsg
  pub mirror_asset_balance : ℕ
  pub uusd_balance : ℕ
  pub pool_mirror_asset_amount : ℕ
  pub pool_uusd_amount : ℕ
  pub lp_token_amount : ℕ
  pub lp_token_total_supply : ℕ

unfoldable pub withdraw_from_short :
    Chain → Context → Addr → Farm → PositionState → ℕ → Result Reserves
unfolding unbond unstake_lp_from_spectrum_and_withdraw_liquidity
withdraw_from_short c context mirror_asset_cw20_addr farm state withdraw_lp_token_amount =
    let info = state.terraswap_pool_info in
    if withdraw_lp_token_amount == 0
    then ok (record {
      messages = [];
      mirror_asset_balance = state.mirror_asset_balance;
      uusd_balance = state.uusd_balance;
      pool_mirror_asset_amount = info.terraswap_pool_mirror_asset_amount;
      pool_uusd_amount = info.terraswap_pool_uusd_amount;
      lp_token_amount = info.lp_token_amount;
      lp_token_total_supply = info.lp_token_total_supply;
    })
    else (do
      ratio ← c.from_ratio withdraw_lp_token_amount info.lp_token_total_supply
      withdrawn_mirror_asset ← times c info.terraswap_pool_mirror_asset_amount ratio
      withdrawn_uusd ← times c info.terraswap_pool_uusd_amount ratio
      mirror_asset_balance ← add_128 state.mirror_asset_balance withdrawn_mirror_asset
      uusd_balance ← add_128 state.uusd_balance withdrawn_uusd
      pool_mirror_asset ← sub_128 info.terraswap_pool_mirror_asset_amount withdrawn_mirror_asset
      pool_uusd ← sub_128 info.terraswap_pool_uusd_amount withdrawn_uusd
      lp_token_amount ← unbond c farm info withdraw_lp_token_amount
      supply ← sub_128 info.lp_token_total_supply withdraw_lp_token_amount
      ok (record {
        messages =
            unstake_lp_from_spectrum_and_withdraw_liquidity info context.spectrum_mirror_farms_addr
              mirror_asset_cw20_addr withdraw_lp_token_amount;
        mirror_asset_balance = mirror_asset_balance;
        uusd_balance = uusd_balance;
        pool_mirror_asset_amount = pool_mirror_asset;
        pool_uusd_amount = pool_uusd;
        lp_token_amount = lp_token_amount;
        lp_token_total_supply = supply;
      }))

-- Whether an offer of uusd leaves the position net short.
unfoldable pub is_short_after : Chain → ℕ → Reserves → ℕ → ℕ → Result Bool
unfolding simulate_terraswap_swap
is_short_after c mirror_asset_short_amount reserves lp_ratio offer_uusd_amount = do
  (pool_uusd_after, pool_mirror_asset_after, returned) ←
      simulate_terraswap_swap c reserves.pool_uusd_amount reserves.pool_mirror_asset_amount
        offer_uusd_amount
  long_farm ← times c pool_mirror_asset_after lp_ratio
  with_returned ← add_128 long_farm returned
  long_amount ← add_128 with_returned reserves.mirror_asset_balance
  ok (ltb long_amount mirror_asset_short_amount)

unfoldable pub first_neutral_offer : Chain → ℕ → Reserves → Result ℕ
unfolding search_leftmost is_short_after
first_neutral_offer c mirror_asset_short_amount reserves = do
  b ← add_128 reserves.uusd_balance 1
  lp_ratio ← c.from_ratio reserves.lp_token_amount reserves.lp_token_total_supply
  search_leftmost (is_short_after c mirror_asset_short_amount reserves lp_ratio) rounds 0 b

unfoldable pub withdrawal_of_short : Chain → Farm → PositionState → Result ℕ
unfolding search_leftmost stays_short
withdrawal_of_short c farm state = do
  b ← add_128 state.terraswap_pool_info.lp_token_amount 1
  search_leftmost (stays_short c farm state) rounds 0 b

unfoldable pub rebalance_net_short :
    Chain → Context → Addr → Farm → PositionState → Result (List CosmosMsg)
unfolding withdrawal_of_short withdraw_from_short first_neutral_offer
rebalance_net_short c context mirror_asset_cw20_addr farm state = do
  withdraw_lp_token_amount ← withdrawal_of_short c farm state
  reserves ←
      withdraw_from_short c context mirror_asset_cw20_addr farm state withdraw_lp_token_amount
  a ← first_neutral_offer c state.mirror_asset_short_amount reserves
  ok (
      reserves.messages
      ++ (wasm_execute state.terraswap_pool_info.terraswap_pair_addr (pair_swap (uusd a))
            (uusd_coin a ∷ [])
          ∷ []))
