-- ===== src/Examples/Restore.antt =====
-- Runs of rebalancing a position, and of its targets.
use position_managers.Prelude.{ℕ, ◌+◌, ◌*◌, ◌≤◌, ◌≡◌, refl, true, none, List, [], ◌∷◌, ltb, arith}
use position_managers.Cosmwasm.{ok}
use position_managers.Message.{CosmosMsg}
use position_managers.Dex.{search}
use position_managers.DeltaNeutralManager.Rebalance.{PositionState}
use position_managers.DeltaNeutralPosition.Search.{search_leftmost}
use position_managers.DeltaNeutralPosition.Search.Scan.{scan, search_leftmost-scan}
use position_managers.DeltaNeutralPosition.Dex.{swap_cw20_token_for_uusd, swap_msg}
use position_managers.DeltaNeutralPosition.Util.{min_target_cr_range_width, raise_lp_amount}
use position_managers.DeltaNeutralPosition.Open.{
  collateral_and_mint, long_swap_amount, delta_neutral_invest,
}
use position_managers.DeltaNeutralPosition.Safety.{raised_range}
use position_managers.DeltaNeutralPosition.Closing.{close_cdp_and_collect_fees}
use position_managers.DeltaNeutralPosition.Liquidity.{provide_amounts}
use position_managers.DeltaNeutralPosition.Rebalance.Unbonding.{Farm}
use position_managers.DeltaNeutralPosition.Rebalance.NetLong.{
  Holdings, withdrawal_of_long, withdraw_from_long, rebalance_net_long,
}
use position_managers.DeltaNeutralPosition.Rebalance.NetShort.{
  Reserves, withdrawal_of_short, withdraw_from_short, rebalance_net_short,
}
use position_managers.DeltaNeutralPosition.Payments.{provide_amounts-bounded}
use position_managers.DeltaNeutralPosition.Restoring.Long.{LongPlan, rebalance_net_long-LongPlan}
use position_managers.DeltaNeutralPosition.Restoring.Short.{
  ShortPlan, rebalance_net_short-ShortPlan,
}
use position_managers.DeltaNeutralPosition.Targets.{
  raised_range-keeps_width, LeastEnough, raise_lp_amount-LeastEnough,
}
use position_managers.Examples.Neutral.{context}
use position_managers.Examples.Ledger.{one, chain, chain-ChainLaws}
use position_managers.Examples.Invest.{outcome, range}

program : Unit {0}
unfolding search delta_neutral_invest collateral_and_mint long_swap_amount
    close_cdp_and_collect_fees provide_amounts rebalance_net_long rebalance_net_short
    withdrawal_of_long withdraw_from_long withdrawal_of_short withdraw_from_short
    swap_cw20_token_for_uusd raised_range search_leftmost
program = tt

-- A position with so much of the mirror asset, without LP tokens.
abbrev amounts : ℕ → ℕ → PositionState
amounts mirror_asset_balance short = record {
  uusd_balance = 1000;
  uusd_long_farm = 0;
  mirror_asset_short_amount = short;
  mirror_asset_balance = mirror_asset_balance;
  mirror_asset_long_farm = 0;
  mirror_asset_long_amount = mirror_asset_balance;
  collateral_anchor_ust_amount = 2000;
  collateral_uusd_value = 2000;
  mirror_asset_oracle_price = one;
  anchor_ust_oracle_price = one;
  terraswap_pool_info = record {
    lp_token_amount = 0;
    lp_token_cw20_addr = "lp";
    lp_token_total_supply = 1_000_000;
    terraswap_pair_addr = "pair";
    terraswap_pool_mirror_asset_amount = 1_000_000;
    terraswap_pool_uusd_amount = 1_000_000;
    spectrum_auto_compound_share_amount = 0;
  };
}

abbrev farm : Farm
farm = record { spectrum_pool_info = none; spectrum_mirror_pool_lp_balance = 0 }

abbrev left_long : Holdings
left_long = record {
  messages = [];
  mirror_asset_balance = 150;
  pool_mirror_asset_amount = 1_000_000;
  lp_token_amount = 0;
  lp_token_total_supply = 1_000_000;
}

abbrev selling : List CosmosMsg
selling = outcome [] (rebalance_net_long (chain true) context "mAAPL" farm (amounts 150 100))

sells_50 : selling ≡ swap_msg "mAAPL" "astroport_pair" 50 ∷ []
unfolding program
sells_50 = refl

rebalance_net_long-LongPlan_example :
    LongPlan (chain true) context "mAAPL" farm (amounts 150 100) 0 left_long selling
unfolding program
rebalance_net_long-LongPlan_example =
    rebalance_net_long-LongPlan (chain true) context "mAAPL" farm (amounts 150 100) 0 left_long
      selling (chain-ChainLaws true) refl refl (omega arith) refl

abbrev buying : List CosmosMsg
buying = outcome [] (rebalance_net_short (chain true) context "mAAPL" farm (amounts 100 150))

abbrev left_short : Reserves
left_short = record {
  messages = [];
  mirror_asset_balance = 100;
  uusd_balance = 1000;
  pool_mirror_asset_amount = 1_000_000;
  pool_uusd_amount = 1_000_000;
  lp_token_amount = 0;
  lp_token_total_supply = 1_000_000;
}

rebalance_net_short-ShortPlan_example :
    ShortPlan (chain true) farm (amounts 100 150) 0 left_short buying
unfolding program
rebalance_net_short-ShortPlan_example =
    rebalance_net_short-ShortPlan (chain true) context "mAAPL" farm (amounts 100 150) 0 left_short
      buying (chain-ChainLaws true) refl refl
      (record {
        some_uusd = omega arith;
        uusd_fits = omega arith;
        mirror_asset_fits = omega arith;
        part = omega arith;
      })
      refl

below : (x y : ℕ) → x ≤ y → ltb y 40 ≡ true → ltb x 40 ≡ true
below x y h e = ground arith

search_leftmost-scan_example :
    search_leftmost (λ x. ok (ltb x 40)) 128 0 100 ≡ ok (scan (λ x. ltb x 40) 100 0)
search_leftmost-scan_example =
    search_leftmost-scan (λ x. ok (ltb x 40)) (λ x. ltb x 40) 100 (omega arith) (λ x h. refl)
      (λ x y h h' e. below x y h e)

raised_range-keeps_width_example :
    (2_500_000_000_000_000_000 ≤ 2_500_000_000_000_000_000)
    × (range.min ≤ 2_500_000_000_000_000_000)
    × (range.max ≤ 2_900_000_000_000_000_000)
    × (2_500_000_000_000_000_000 + min_target_cr_range_width ≤ 2_900_000_000_000_000_000)
unfolding program
raised_range-keeps_width_example =
    raised_range-keeps_width range 2_500_000_000_000_000_000
      (record { min = 2_500_000_000_000_000_000; max = 2_900_000_000_000_000_000 }) (omega arith)
      refl

raise_lp_amount-LeastEnough_example :
    (r : ℕ) × (raise_lp_amount (λ lp. ok (lp * 2)) 31 50 10 ≡ ok r)
    × LeastEnough (λ lp. lp * 2) 31 10 r
raise_lp_amount-LeastEnough_example =
    raise_lp_amount-LeastEnough (λ lp. ok (lp * 2)) (λ lp. lp * 2) 31 50 10 20 (λ x h. refl)
      (omega arith) (omega arith) (omega arith) (omega arith)

provide_amounts-bounded_example : (150 ≤ 1000) × (150 ≤ 150)
unfolding program
provide_amounts-bounded_example =
    provide_amounts-bounded (chain true) (amounts 150 100) 150 150 (chain-ChainLaws true) refl
