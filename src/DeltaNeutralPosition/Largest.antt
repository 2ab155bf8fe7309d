-- ===== src/DeltaNeutralPosition/Largest.antt =====
-- The investment of contracts/delta_neutral_position/src/open.rs, and what its budget affords.
use position_managers.Prelude.{
  ℕ, zero, suc, ◌+◌, ◌-◌, ◌≤◌, ◌<◌, ◌≡◌, refl, sym, ap, ◌∙◌, inl, inr, false, Option, List, ltb,
  ltb→lt, ltb-eq-false, leb, Bool-cases, arith,
}
use position_managers.Cosmwasm.{Addr, ok, ok-injective, chain, add_128, add_128-eq, Env}
use position_managers.Message.{CosmosMsg}
use position_managers.Anchor.{get_anchor_ust_exchange_rate}
use position_managers.DeltaNeutralManager.State.{Context}
use position_managers.DeltaNeutralManager.Rebalance.{TargetCollateralRatioRange}
use position_managers.Chain.{Chain, ChainLaws, PairInfo}
use position_managers.DeltaNeutralPosition.Math.{midpoint}
use position_managers.DeltaNeutralPosition.Dex.{get_terraswap_mirror_asset_uusd_liquidity_info}
use position_managers.DeltaNeutralPosition.Open.{
  Market, Investment, collateral_and_mint, long_swap_amount, stays_within, feasible,
  invest_messages, delta_neutral_invest,
}
use position_managers.DeltaNeutralPosition.Spending.{spent}
use position_managers.DeltaNeutralPosition.Investing.{Exceeding, delta_neutral_invest-Invested}

-- The market that an investment meets: the pair's pools, the rates, and the middle of the range.
pub record IsMarket (c : Chain) (env : Env) (context : Context) (range : TargetCollateralRatioRange)
    (mirror_asset : Addr) (rate : ℕ) (pair : PairInfo) (market : Market) : Type 0 where
  pub rate_is : market.mirror_asset_oracle_uusd_rate ≡ rate
  pub anchor_rate_is :
      get_anchor_ust_exchange_rate c.anchor env context.anchor_market_addr
      ≡ ok market.anchor_ust_exchange_rate
  pub ratio_is : midpoint range ≡ ok market.collateral_ratio
  pub pools_are :
      get_terraswap_mirror_asset_uusd_liquidity_info c context.terraswap_factory_addr mirror_asset
      ≡ ok (pair, market.pool_mirror_asset_balance, market.pool_uusd_balance)

-- An amount of collateral that fits a budget with the swap that buys back what is minted against it.
abbrev pub Affords : Chain → Market → ℕ → ℕ → Type 0
Affords c market uusd_amount x =
    (aust : ℕ) × (mint : ℕ) × (swap_amount : ℕ) × (collateral_and_mint c market x ≡ ok (aust, mint))
    × (long_swap_amount c market mint ≡ ok (ok swap_amount))
    × (x + swap_amount ≤ uusd_amount)

-- No amount that is too much is affordable.
infeasible :
    (c : Chain) (market : Market) (uusd_amount x : ℕ)
    → feasible c market uusd_amount x ≡ ok false
    → Affords c market uusd_amount x
    → ⊥
unfolding feasible stays_within
infeasible c market uusd_amount x e (aust, mint, swap_amount, minted, swapped, fits) =
    chain (add_128 x swap_amount) _ (rw (minted, swapped) at e)
      λ sum e₁ e. contradiction sum (add_128-eq x swap_amount sum e₁) (ok-injective e)
  where
    contradiction : (sum : ℕ) → sum ≡ x + swap_amount → leb sum uusd_amount ≡ false → ⊥
    contradiction sum is_sum too_much = ground arith

module _ (c : Chain) (market : Market) (uusd_amount : ℕ)
    (downward : (x : ℕ)
      → x + 1 < uusd_amount
      → Affords c market uusd_amount (x + 1)
      → Affords c market uusd_amount x) where
  descend :
      (k x y : ℕ)
      → y ≡ x + k
      → y < uusd_amount
      → Affords c market uusd_amount y
      → Affords c market uusd_amount x
  descend zero x y same below fits = let here : y ≡ x = omega arith in rw here at fits
  descend (suc k) x y same below fits =
      let next : y ≡ x + k + 1 = omega arith in
      descend k x (x + k) refl (omega arith) (downward (x + k) (omega arith) (rw next at fits))

  -- Below the budget nothing above the border is affordable.
  Exceeding-largest :
      (top x : ℕ)
      → Exceeding c market uusd_amount (top + 1)
      → x < uusd_amount
      → Affords c market uusd_amount x
      → x ≤ top
  Exceeding-largest top x exceeding below fits = elim (Bool-cases (ltb top x)) [
    | inr no_more ↦ ltb-eq-false top x no_more
    | inl more ↦ absurd (above (ltb→lt top x more) exceeding)
  ]
    where
      above : top < x → Exceeding c market uusd_amount (top + 1) → ⊥
      above lt (inl all) = omega arith
      above lt (inr not_feasible) =
          let same : x ≡ top + 1 + (x - (top + 1)) = omega arith in
          infeasible c market uusd_amount (top + 1) not_feasible
            (descend (x - (top + 1)) (top + 1) x same below fits)

Market-eq :
    (a b : Market)
    → a.anchor_ust_exchange_rate ≡ b.anchor_ust_exchange_rate
    → a.mirror_asset_oracle_uusd_rate ≡ b.mirror_asset_oracle_uusd_rate
    → a.collateral_ratio ≡ b.collateral_ratio
    → a.pool_mirror_asset_balance ≡ b.pool_mirror_asset_balance
    → a.pool_uusd_balance ≡ b.pool_uusd_balance
    → a ≡ b
Market-eq a b e₁ e₂ e₃ e₄ e₅ =
    ap (λ x. record a { anchor_ust_exchange_rate = x }) e₁
    ∙ ap
        (λ x. record a {
          anchor_ust_exchange_rate = b.anchor_ust_exchange_rate;
          mirror_asset_oracle_uusd_rate = x;
        })
        e₂
    ∙ ap
        (λ x. record b {
          collateral_ratio = x;
          pool_mirror_asset_balance = a.pool_mirror_asset_balance;
          pool_uusd_balance = a.pool_uusd_balance;
        })
        e₃
    ∙ ap (λ x. record b { pool_mirror_asset_balance = x; pool_uusd_balance = a.pool_uusd_balance })
        e₄
    ∙ ap (λ x. record b { pool_uusd_balance = x }) e₅

-- The largest investment: what is minted against its collateral, the swap that buys it back, the
-- budget kept, and no affordable amount of collateral below the budget greater.
pub record IsLargest (c : Chain) (market : Market) (uusd_amount : ℕ) (found : Investment)
    : Type 0 where
  pub minted :
      collateral_and_mint c market found.uusd_collateral_amount
      ≡ ok (found.collateral_anchor_ust_amount, found.mirror_asset_mint_amount)
  pub bought_back :
      long_swap_amount c market found.mirror_asset_mint_amount ≡ ok (ok found.uusd_long_swap_amount)
  pub within : found.uusd_collateral_amount + found.uusd_long_swap_amount ≤ uusd_amount
  pub largest :
      (x : ℕ) → x < uusd_amount → Affords c market uusd_amount x → x ≤ found.uusd_collateral_amount

-- An investment that succeeds sends the messages of the largest investment in its market that the
-- budget affords: its collateral and the swap that buys back what is minted against it stay within
-- the budget, so that the messages send no more uusd, for a new debt position and for one that is
-- increased; and no greater amount of collateral, less than the budget, is affordable. This is for a
-- market where with an amount below the budget the one before is affordable too. The arithmetic is
-- as documented.
pub delta_neutral_invest-IsLargest :
    (c : Chain) (env : Env) (context : Context) (uusd_amount : ℕ)
    (range : TargetCollateralRatioRange) (mirror_asset : Addr) (rate : ℕ) (cdp_idx : Option ℕ)
    (pair : PairInfo) (market : Market) (messages : List CosmosMsg)
    → ChainLaws c
    → IsMarket c env context range mirror_asset rate pair market
    → ((x : ℕ)
        → x + 1 < uusd_amount
        → Affords c market uusd_amount (x + 1)
        → Affords c market uusd_amount x)
    → delta_neutral_invest c env context uusd_amount range mirror_asset rate cdp_idx ≡ ok messages
    → (found : Investment) × IsLargest c market uusd_amount found
      × (messages ≡ invest_messages context pair market.collateral_ratio mirror_asset cdp_idx found)
      × (spent messages ≤ uusd_amount)
delta_neutral_invest-IsLargest c env context uusd_amount range mirror_asset rate cdp_idx pair market
      messages laws known downward e =
    let i =
      delta_neutral_invest-Invested c env context uusd_amount range mirror_asset rate cdp_idx
        messages laws e in
    let pools = ok-injective (sym i.pools_are ∙ known.pools_are) in
    let same_pair : pair ≡ i.pair = sym (ap (λ (p : PairInfo × ℕ × ℕ). p.0) pools) in
    let same : market ≡ i.market =
      Market-eq market i.market (ok-injective (sym known.anchor_rate_is ∙ i.anchor_rate_is))
        (known.rate_is ∙ sym i.rate_is) (ok-injective (sym known.ratio_is ∙ i.ratio_is))
        (sym (ap (λ (p : PairInfo × ℕ × ℕ). p.1) pools))
        (sym (ap (λ (p : PairInfo × ℕ × ℕ). p.2) pools)) in
    (
      i.found,
      record {
        minted = rw same i.investment.minted;
        bought_back = rw same i.investment.bought_back;
        within = i.investment.within;
        largest = λ x below fits.
            Exceeding-largest c market uusd_amount downward i.found.uusd_collateral_amount x
              (rw same i.investment.border) below fits;
      },
      rw (same, same_pair) i.sent,
      i.within_budget,
    )
