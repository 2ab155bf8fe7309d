-- ===== src/DeltaNeutralPosition/Investing.antt =====
-- The binary search of contracts/delta_neutral_position/src/open.rs, and the budget.
use position_managers.Prelude.{
  ℕ, ◌+◌, ◌≤◌, ◌≡◌, ◌≢◌, refl, sym, ap, ◌∙◌, ◌⊎◌, inl, inr, true, false, Option, List, ltb, ltb→lt,
  ltb-eq-false, Bool-cases, arith,
}
use position_managers.Cosmwasm.{Addr, ok, ok-injective, chain, branch, guarded-elim, add_128, Env}
use position_managers.Message.{CosmosMsg}
use position_managers.Anchor.{get_anchor_ust_exchange_rate}
use position_managers.DeltaNeutralManager.State.{Context}
use position_managers.DeltaNeutralManager.Rebalance.{
  TargetCollateralRatioRange, is_mirror_asset_delisted,
}
use position_managers.Chain.{Chain, ChainLaws, PairInfo}
use position_managers.DeltaNeutralPosition.Math.{midpoint}
use position_managers.DeltaNeutralPosition.Search.{search_rightmost, search_rightmost-border}
use position_managers.DeltaNeutralPosition.Util.{min_target_cr_range_width}
use position_managers.DeltaNeutralPosition.Dex.{get_terraswap_mirror_asset_uusd_liquidity_info}
use position_managers.DeltaNeutralPosition.Open.{
  Market, Investment, collateral_and_mint, long_swap_amount, feasible, rounds, find_investment,
  invest_messages, delta_neutral_invest,
}
use position_managers.DeltaNeutralPosition.Spending.{
  spent, invest-spent, Affordable, Affordable-within,
}

-- An amount of collateral that takes the whole budget, or that the search finds too large for it.
abbrev pub Exceeding : Chain → Market → ℕ → ℕ → Type 0
Exceeding c market uusd_amount x = (uusd_amount ≤ x) ⊎ (feasible c market uusd_amount x ≡ ok false)

-- What the search finds, when nothing and when something can be spent.
searched :
    (c : Chain) (market : Market) (uusd_amount x : ℕ)
    → search_rightmost (feasible c market uusd_amount) rounds 0 uusd_amount ≡ ok x
    → Affordable c market uusd_amount x × Exceeding c market uusd_amount (x + 1)
unfolding Affordable search_rightmost
searched c market uusd_amount x h = elim (Bool-cases (ltb 0 uusd_amount)) [
  | inl some_budget ↦
      search_rightmost-border (feasible c market uusd_amount)
        (λ y. Affordable c market uusd_amount y) (λ y. Exceeding c market uusd_amount y)
        (λ y e. inr e) (λ y e. inr e) rounds 0 uusd_amount x (ltb→lt 0 uusd_amount some_budget)
        (inl refl) (inl (omega arith)) h
  | inr no_budget ↦
      let empty = ltb-eq-false 0 uusd_amount no_budget in
      (inl (ended uusd_amount empty h), inl (omega arith))
]
  where
    impossible : (top : ℕ) → top ≤ 0 → ltb (0 + 1) top ≢ true
    impossible top small more = let q = ltb→lt (0 + 1) top more in omega arith

    ended :
        (top : ℕ)
        → top ≤ 0
        → search_rightmost (feasible c market uusd_amount) rounds 0 top ≡ ok x
        → x ≡ 0
    ended top small h =
        branch (ltb (0 + 1) top) _ _ h (λ more e. absurd (impossible top small more))
          (λ stop e. sym (ok-injective e))

-- What an investment has found: within the budget, with the border of the search.
pub record IsFound (c : Chain) (market : Market) (uusd_amount : ℕ) (found : Investment)
    : Type 0 where
  pub minted :
      collateral_and_mint c market found.uusd_collateral_amount
      ≡ ok (found.collateral_anchor_ust_amount, found.mirror_asset_mint_amount)
  pub bought_back :
      long_swap_amount c market found.mirror_asset_mint_amount ≡ ok (ok found.uusd_long_swap_amount)
  pub within : found.uusd_collateral_amount + found.uusd_long_swap_amount ≤ uusd_amount
  pub border : Exceeding c market uusd_amount (found.uusd_collateral_amount + 1)

find_investment-IsFound :
    (c : Chain) (market : Market) (uusd_amount : ℕ) (found : Investment)
    → ChainLaws c
    → find_investment c market uusd_amount ≡ ok found
    → IsFound c market uusd_amount found
unfolding find_investment
find_investment-IsFound c market uusd_amount found laws e =
    chain (search_rightmost (feasible c market uusd_amount) rounds 0 uusd_amount) _ e λ x e₁ e.
      chain (collateral_and_mint c market x) _ e λ p e₂ e.
        chain (long_swap_amount c market p.1) _ e λ outcome e₃ e.
          chain outcome _ e λ swap_amount e₄ e.
            let (affordable, exceeding) = searched c market uusd_amount x e₁ in
            let swapped = e₃ ∙ ap (λ o. ok o) e₄ in
            rw (sym (ok-injective e)) (record {
              minted = e₂;
              bought_back = swapped;
              within =
                  Affordable-within c market uusd_amount x p.0 p.1 swap_amount laws affordable e₂
                    swapped;
              border = exceeding;
            })

-- What an investment that succeeds has seen, and found there.
pub record Invested (c : Chain) (env : Env) (context : Context) (uusd_amount : ℕ)
    (range : TargetCollateralRatioRange) (mirror_asset : Addr) (rate : ℕ) (cdp_idx : Option ℕ)
    (messages : List CosmosMsg) : Type 0 where
  pub pair : PairInfo
  pub market : Market
  pub found : Investment
  pub rate_is : market.mirror_asset_oracle_uusd_rate ≡ rate
  pub anchor_rate_is :
      get_anchor_ust_exchange_rate c.anchor env context.anchor_market_addr
      ≡ ok market.anchor_ust_exchange_rate
  pub ratio_is : midpoint range ≡ ok market.collateral_ratio
  pub pools_are :
      get_terraswap_mirror_asset_uusd_liquidity_info c context.terraswap_factory_addr mirror_asset
      ≡ ok (pair, market.pool_mirror_asset_balance, market.pool_uusd_balance)
  pub investment : IsFound c market uusd_amount found
  pub sent :
      messages ≡ invest_messages context pair market.collateral_ratio mirror_asset cdp_idx found
  pub within_budget : spent messages ≤ uusd_amount

pub delta_neutral_invest-Invested :
    (c : Chain) (env : Env) (context : Context) (uusd_amount : ℕ)
    (range : TargetCollateralRatioRange) (mirror_asset : Addr) (rate : ℕ) (cdp_idx : Option ℕ)
    (messages : List CosmosMsg)
    → ChainLaws c
    → delta_neutral_invest c env context uusd_amount range mirror_asset rate cdp_idx ≡ ok messages
    → Invested c env context uusd_amount range mirror_asset rate cdp_idx messages
unfolding delta_neutral_invest
delta_neutral_invest-Invested c env context uusd_amount range mirror_asset rate cdp_idx messages
      laws e =
    chain
      (get_terraswap_mirror_asset_uusd_liquidity_info c context.terraswap_factory_addr mirror_asset)
      _ e
      λ pools e₁ e.
        chain (c.mirror.query_asset_config context.mirror_mint_addr mirror_asset) _ e λ config e₂ e.
          guarded-elim (is_mirror_asset_delisted config) _ _ e λ listed e.
            chain (add_128 config.min_collateral_ratio context.collateral_ratio_safety_margin) _ e
              λ least e₃ e. guarded-elim (ltb range.min least) _ _ e λ safe e.
                chain (add_128 range.min min_target_cr_range_width) _ e λ least_max e₄ e.
                  guarded-elim (ltb range.max least_max) _ _ e λ wide e.
                    chain (get_anchor_ust_exchange_rate c.anchor env context.anchor_market_addr) _ e
                      λ anchor_rate e₅ e. chain (midpoint range) _ e λ ratio e₆ e.
                        let market : Market = record {
                          anchor_ust_exchange_rate = anchor_rate;
                          mirror_asset_oracle_uusd_rate = rate;
                          collateral_ratio = ratio;
                          pool_mirror_asset_balance = pools.1;
                          pool_uusd_balance = pools.2;
                        } in
                        chain (find_investment c market uusd_amount) _ e λ found e₇ e.
                          let is_found =
                            find_investment-IsFound c market uusd_amount found laws e₇ in
                          record {
                            pair = pools.0;
                            market = market;
                            found = found;
                            rate_is = refl;
                            anchor_rate_is = e₅;
                            ratio_is = e₆;
                            pools_are = e₁;
                            investment = is_found;
                            sent = sym (ok-injective e);
                            within_budget =
                                rw
                                  (
                                    sym (ok-injective e),
                                    invest-spent context pools.0 ratio mirror_asset cdp_idx found,
                                  )
                                  is_found.within;
                          }
