-- ===== src/Examples/Pools.antt =====
-- The contract's own tests of contracts/delta_neutral_position/src/open.rs and rebalance.rs, run on
-- the definitions: the same pools and positions give the same messages.
use position_managers.Prelude.{ℕ, ◌*◌, ◌≡◌, ◌+◌, ◌++◌, refl, true, none, some, List, [], ◌∷◌}
use position_managers.Cosmwasm.{ok, err, generic_err}
use position_managers.Common.{token, native_token}
use position_managers.Message.{
  CosmosMsg, wasm_execute, cw20_send, swap, withdraw_liquidity, deposit_stable, mint_open_position,
  pair_swap, farm_unbond,
}
use position_managers.AnchorEarnProxy.{uusd, uusd_coin}
use position_managers.Dex.{search}
use position_managers.DeltaNeutralManager.Rebalance.{PositionState, TargetCollateralRatioRange}
use position_managers.Chain.{Chain}
use position_managers.DeltaNeutralPosition.State.{State, fresh_state}
use position_managers.DeltaNeutralPosition.Open.{delta_neutral_invest}
use position_managers.DeltaNeutralPosition.Rebalance.{achieve_delta_neutral_from_state}
use position_managers.Examples.Data.{env}
use position_managers.Examples.Neutral.{context}
use position_managers.Examples.Ledger.{one, chain}

program : Unit {0}
unfolding search delta_neutral_invest achieve_delta_neutral_from_state
program = tt

-- The chain of the tests' mock querier, with so many LP tokens in Spectrum's farm.
abbrev mocked : ℕ → Chain
mocked lp_tokens = record (chain true) {
  anchor = record ((chain true).anchor) {
    epoch_exchange_rate = λ market height. ok 1_100_000_000_000_000_000;
  };
  query_pool = λ asset pair. elim asset [
    | token contract_addr ↦ ok 1_000_000
    | native_token denom ↦ ok 9_000_000
  ];
  terraswap_pair = λ factory assets.
      ok (record { contract_addr = "mock_terraswap_pair"; liquidity_token = "lp_token" });
  terraswap_simulate = λ pair offer. ok 10;
  astroport_simulate = λ pair offer. ok 9;
  mirror_rewards =
      λ staking owner asset. ok (record { bond_amount = lp_tokens; pending_reward = 0 } ∷ []);
  spectrum_pool = λ farm key.
      ok (some (record { total_auto_bond_share = lp_tokens; total_stake_bond_amount = 0 }));
}

abbrev range : ℕ → ℕ → TargetCollateralRatioRange
range min max = record { min = min * 100_000_000_000_000_000; max = max * 100_000_000_000_000_000 }

invest_600 :
    delta_neutral_invest (mocked 0) env context 600 (range 18 22) "mock_cw20_addr" (10 * one) none
    ≡ ok (
        wasm_execute "anchor_market" deposit_stable (uusd_coin 420 ∷ [])
        ∷ wasm_execute "anchor_ust_cw20"
            (cw20_send "mirror_mint" 381 (mint_open_position (token "mock_cw20_addr") (2 * one)))
            []
        ∷ wasm_execute "mock_terraswap_pair" (pair_swap (uusd 180)) (uusd_coin 180 ∷ [])
        ∷ [])
unfolding program
invest_600 = refl

min_too_small :
    delta_neutral_invest (mocked 0) env context 600 (range 16 22) "mock_cw20_addr" (10 * one) none
    ≡ err (generic_err "target_min_collateral_ratio too small")
unfolding program
min_too_small = refl

max_too_small :
    delta_neutral_invest (mocked 0) env context 600 (range 18 21) "mock_cw20_addr" (10 * one) none
    ≡ err (generic_err "target_max_collateral_ratio too small")
unfolding program
max_too_small = refl

abbrev held : State
held = record (fresh_state "manager") {
  cdp_idx = some 1;
  mirror_asset_cw20_addr = some "mock_cw20_addr";
}

-- (uusd, short, balance, long farm, LP tokens, their supply)
abbrev position : ℕ → ℕ → ℕ → ℕ → ℕ → ℕ → PositionState
position uusd_balance short balance long_farm lp_tokens supply = record {
  uusd_balance = uusd_balance;
  uusd_long_farm = 9000;
  mirror_asset_short_amount = short;
  mirror_asset_balance = balance;
  mirror_asset_long_farm = long_farm;
  mirror_asset_long_amount = balance + long_farm;
  collateral_anchor_ust_amount = 9000;
  collateral_uusd_value = 9900;
  mirror_asset_oracle_price = 10 * one;
  anchor_ust_oracle_price = 1_100_000_000_000_000_000;
  terraswap_pool_info = record {
    lp_token_amount = lp_tokens;
    lp_token_cw20_addr = "lp_token";
    lp_token_total_supply = supply;
    terraswap_pair_addr = "mock_terraswap_pair";
    terraswap_pool_mirror_asset_amount = 1_000_000;
    terraswap_pool_uusd_amount = 9_000_000;
    spectrum_auto_compound_share_amount = lp_tokens;
  };
}

abbrev unstake : ℕ → List CosmosMsg
unstake amount =
    wasm_execute "spectrum_mirror_farms" (farm_unbond "mock_cw20_addr" amount) []
    ∷ wasm_execute "lp_token" (cw20_send "mock_terraswap_pair" amount withdraw_liquidity) []
    ∷ []

net_long :
    achieve_delta_neutral_from_state
      (mocked 6000)
      held
      context
      (position 1 1000 10 2000 6000 3_000_000)
    ≡ ok (
        unstake 3001
        ++ (wasm_execute "mock_cw20_addr" (cw20_send "mock_terraswap_pair" 1010 swap) [] ∷ []))
unfolding program
net_long = refl

net_short :
    achieve_delta_neutral_from_state
      (mocked 3000)
      held
      context
      (position 1 2000 10 1000 3000 3_000_000)
    ≡ ok (
        unstake 2982
        ++ (wasm_execute "mock_terraswap_pair" (pair_swap (uusd 8946)) (uusd_coin 8946 ∷ []) ∷ []))
unfolding program
net_short = refl

net_short_with_uusd :
    achieve_delta_neutral_from_state (mocked 1) held context (position 100_000 2000 10 1000 1 1000)
    ≡ ok (wasm_execute "mock_terraswap_pair" (pair_swap (uusd 8946)) (uusd_coin 8946 ∷ []) ∷ [])
unfolding program
net_short_with_uusd = refl

neutral :
    achieve_delta_neutral_from_state (mocked 0) held context (position 1 1000 1000 0 0 1000) ≡ ok []
unfolding program
neutral = refl
