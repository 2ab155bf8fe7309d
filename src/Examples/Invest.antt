-- ===== src/Examples/Invest.antt =====
-- Runs of investing and of collecting fees of a position's contract.
use position_managers.Prelude.{
  ℕ, zero, suc, ◌+◌, ◌*◌, ◌/◌, ◌^◌, ◌≤◌, ◌<◌, ◌≡◌, refl, true, none, some, List, [], arith,
}
use position_managers.Cosmwasm.{Result, ok, err, panic}
use position_managers.Message.{CosmosMsg}
use position_managers.Dex.{search}
use position_managers.DeltaNeutralManager.State.{FeeCollectionConfig}
use position_managers.DeltaNeutralManager.Rebalance.{PositionState, TargetCollateralRatioRange}
use position_managers.DeltaNeutralPosition.State.{State, fresh_state}
use position_managers.DeltaNeutralPosition.Search.{search_leftmost}
use position_managers.DeltaNeutralPosition.Dex.{swap_cw20_token_for_uusd}
use position_managers.DeltaNeutralPosition.Util.{get_position_state, get_cdp_uusd_lock_info_result}
use position_managers.DeltaNeutralPosition.Open.{
  Market, Investment, collateral_and_mint, long_swap_amount, invest_messages, find_investment,
  delta_neutral_invest,
}
use position_managers.DeltaNeutralPosition.Safety.{raised_range}
use position_managers.DeltaNeutralPosition.Closing.{
  with_locked, gain_over, close_cdp, close_cdp_and_collect_fees,
}
use position_managers.DeltaNeutralPosition.Liquidity.{provide_amounts}
use position_managers.DeltaNeutralPosition.Rebalance.NetLong.{
  withdrawal_of_long, withdraw_from_long, rebalance_net_long,
}
use position_managers.DeltaNeutralPosition.Rebalance.NetShort.{
  withdrawal_of_short, withdraw_from_short, rebalance_net_short,
}
use position_managers.DeltaNeutralPosition.Largest.{
  Affords, IsLargest, delta_neutral_invest-IsLargest,
}
use position_managers.DeltaNeutralPosition.Spending.{spent}
use position_managers.DeltaNeutralPosition.Fees.{Outcome, close_cdp_and_collect_fees-Outcome}
use position_managers.Examples.Data.{env}
use position_managers.Examples.Neutral.{context}
use position_managers.Examples.Ledger.{one, chain, chain-ChainLaws}

program : Unit {0}
unfolding search find_investment delta_neutral_invest collateral_and_mint long_swap_amount
    close_cdp_and_collect_fees provide_amounts rebalance_net_long rebalance_net_short
    withdrawal_of_long withdraw_from_long withdrawal_of_short withdraw_from_short
    swap_cw20_token_for_uusd raised_range search_leftmost
program = tt

abbrev pub outcome {ℓ} : {A : Type ℓ} → A → Result A → A
outcome d (ok a) = a
outcome d (err e) = d
outcome d panic = d

abbrev pub range : TargetCollateralRatioRange
range = record { min = 2_300_000_000_000_000_000; max = 2_700_000_000_000_000_000 }

abbrev investing : List CosmosMsg
investing = outcome [] (delta_neutral_invest (chain true) env context 6 range "mAAPL" one none)

abbrev market : Market
market = record {
  anchor_ust_exchange_rate = 1_100_000_000_000_000_000;
  mirror_asset_oracle_uusd_rate = one;
  collateral_ratio = 2_500_000_000_000_000_000;
  pool_mirror_asset_balance = 1_000_000;
  pool_uusd_balance = 1_000_000;
}

-- Every amount of collateral up to 4 is affordable with 6 uusd.
small_affordable : (x : ℕ) → x + 1 < 6 → Affords (chain true) market 6 x
unfolding program
small_affordable zero h = (0, 0, 0, refl, refl, omega arith)
small_affordable (suc zero) h = (0, 0, 0, refl, refl, omega arith)
small_affordable (suc (suc zero)) h = (1, 0, 0, refl, refl, omega arith)
small_affordable (suc (suc (suc zero))) h = (2, 0, 0, refl, refl, omega arith)
small_affordable (suc (suc (suc (suc zero)))) h = (3, 1, 1, refl, refl, omega arith)
small_affordable (suc (suc (suc (suc (suc x))))) h = absurd (omega arith)

-- With a budget of 1, a collateral of 1 would be affordable, but the search ends below the budget.
one_affordable : Affords (chain true) market 1 1
unfolding program
one_affordable = (0, 0, 0, refl, refl, omega arith)

nothing_found :
    find_investment (chain true) market 1
    ≡ ok (record {
      uusd_collateral_amount = 0;
      collateral_anchor_ust_amount = 0;
      mirror_asset_mint_amount = 0;
      uusd_long_swap_amount = 0;
    })
unfolding program
nothing_found = refl

delta_neutral_invest-IsLargest_example :
    (found : Investment) × IsLargest (chain true) market 6 found
    × (investing
        ≡ invest_messages context
            (record { contract_addr = "pair"; liquidity_token = "lp" })
            market.collateral_ratio
            "mAAPL"
            none
            found)
    × (spent investing ≤ 6)
unfolding program
delta_neutral_invest-IsLargest_example =
    delta_neutral_invest-IsLargest (chain true) env context 6 range "mAAPL" one none
      (record { contract_addr = "pair"; liquidity_token = "lp" }) market investing
      (chain-ChainLaws true)
      (record { rate_is = refl; anchor_rate_is = refl; ratio_is = refl; pools_are = refl })
      (λ x h fits. small_affordable x (omega arith)) refl

abbrev held : State
held = record (fresh_state "position_manager") {
  cdp_idx = some 5;
  mirror_asset_cw20_addr = some "mAAPL";
  last_fee_collection_position_uusd_value = some 1000;
}

abbrev config : FeeCollectionConfig
config = record {
  performance_rate = 100_000_000_000_000_000;
  off_market_position_open_service_fee_uusd = 7;
  collector_addr = "collector";
}

abbrev collecting : List CosmosMsg × State
collecting = outcome ([], held) (close_cdp_and_collect_fees (chain true) held env context)

-- The value is 2000 of collateral and 1000 of uusd, 2000 more than the last one.
fee_is_200 : collecting.1.last_fee_collection_position_uusd_value ≡ some 2800
unfolding program
fee_is_200 = refl

close_cdp_and_collect_fees-Outcome_example :
    (state : PositionState) × (last_value : ℕ) × (position_value : ℕ) × (fee : ℕ) × (closing : List
      CosmosMsg)
    × (get_position_state (chain true) held env context ≡ ok state)
    × (with_locked
          (get_cdp_uusd_lock_info_result (chain true) held context)
          (state.collateral_uusd_value + state.uusd_balance + state.uusd_long_farm)
        ≡ ok position_value)
    × (held.last_fee_collection_position_uusd_value ≡ some last_value)
    × (close_cdp (chain true) held env context state ≡ ok closing)
    × (fee ≡ gain_over last_value position_value * config.performance_rate / 10 ^ 18)
    × Outcome held config last_value position_value fee closing collecting.0 collecting.1
unfolding program
close_cdp_and_collect_fees-Outcome_example =
    close_cdp_and_collect_fees-Outcome (chain true) held env context config collecting.0
      collecting.1 (chain-ChainLaws true) refl (omega arith) refl
