-- ===== src/Examples/Decision.antt =====
-- Runs of the rebalance query: a position in good shape, and the same with a low collateral ratio.
use position_managers.Prelude.{ℕ, ◌≡◌, refl, true, false, none, some}
use position_managers.Cosmwasm.{Addr, Result, ok}
use position_managers.Common.{get_position_key}
use position_managers.DeltaNeutralManager.State.{State}
use position_managers.DeltaNeutralManager.Rebalance.{
  PositionState, PositionInfo, DetailedPositionInfo, Mirror, ShouldCall, looks_good, cr_below_min,
  judge, judge_position, judge_asset, judge_ratio, judge_amounts,
  query_should_call_rebalance_and_reinvest,
}
use position_managers.DeltaNeutralManager.Decision.{MayRest}
use position_managers.DeltaNeutralManager.Decision.Judging.{query-MayRest}
use position_managers.Examples.Data.{host}
use position_managers.Examples.Neutral.{start, position}

program : Unit {0}
unfolding query_should_call_rebalance_and_reinvest judge judge_position judge_asset judge_ratio
    judge_amounts
program = tt

abbrev held : State
held = record start { position_to_contract_addr = λ key. some "position_contract" }

abbrev amounts : PositionState
amounts = record {
  uusd_balance = 5;
  uusd_long_farm = 0;
  mirror_asset_short_amount = 1000;
  mirror_asset_balance = 0;
  mirror_asset_long_farm = 1004;
  mirror_asset_long_amount = 1004;
  collateral_anchor_ust_amount = 0;
  collateral_uusd_value = 0;
  mirror_asset_oracle_price = 0;
  anchor_ust_oracle_price = 0;
  terraswap_pool_info = record {
    lp_token_amount = 0;
    lp_token_cw20_addr = "lp";
    lp_token_total_supply = 0;
    terraswap_pair_addr = "pair";
    terraswap_pool_mirror_asset_amount = 0;
    terraswap_pool_uusd_amount = 0;
    spectrum_auto_compound_share_amount = 0;
  };
}

abbrev detailed : ℕ → DetailedPositionInfo
detailed ratio = record {
  cdp_preemptively_closed = false;
  state = some amounts;
  target_collateral_ratio_range = record {
    min = 2_300_000_000_000_000_000;
    max = 2_700_000_000_000_000_000;
  };
  collateral_ratio = some ratio;
  unclaimed_short_proceeds_uusd_amount = 0;
  claimable_short_proceeds_uusd_amount = 0;
  claimable_mir_reward_uusd_value = 1;
  claimable_spec_reward_uusd_value = 1;
  uusd_value = 2000;
}

abbrev mirror : ℕ → Mirror
mirror ratio = record {
  query_position_info = λ contract. ok (record {
    position_open_info = record { height = 1; time_nanoseconds = 1; uusd_amount = 1000 };
    position_close_info = none;
    cdp_idx = some 7;
    mirror_asset_cw20_addr = "mAAPL";
    detailed_info = some (detailed ratio);
  });
  query_cdp = λ mint idx. ok (record { collateral_amount = 1; asset_amount = 1; is_short = true });
  query_asset_price = λ oracle asset seconds. ok 150;
  query_asset_config = λ mint asset.
      ok (record { min_collateral_ratio = 1_500_000_000_000_000_000; end_price = none });
}

-- Both thresholds are 1%.
abbrev asked : ℕ → Result ShouldCall
asked ratio =
    query_should_call_rebalance_and_reinvest host (mirror ratio) held position
      10_000_000_000_000_000 10_000_000_000_000_000

asked_low :
    asked 2_200_000_000_000_000_000
    ≡ ok (record {
      position_contract = "position_contract";
      should_call = true;
      reason = cr_below_min;
    })
unfolding program
asked_low = refl

query-MayRest_example :
    (contract : Addr) × (info : PositionInfo) × (held.position_to_contract_addr
        (get_position_key position)
      ≡ some contract)
    × ((mirror 2_500_000_000_000_000_000).query_position_info contract ≡ ok info)
    × MayRest host
        (mirror 2_500_000_000_000_000_000)
        held
        10_000_000_000_000_000
        10_000_000_000_000_000
        info
unfolding program
query-MayRest_example =
    query-MayRest host (mirror 2_500_000_000_000_000_000) held position 10_000_000_000_000_000
      10_000_000_000_000_000
      (record { position_contract = "position_contract"; should_call = false; reason = looks_good })
      refl refl
