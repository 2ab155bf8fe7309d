-- ===== src/DeltaNeutralPosition/Open.antt =====
-- contracts/delta_neutral_position/src/open.rs: how much of a budget of uusd becomes collateral, and
-- the messages that open or increase a delta-neutral position.
use position_managers.Prelude.{ℕ, Bool, false, Option, none, some, List, [], ◌∷◌, ◌++◌, leb, ltb}
use position_managers.Cosmwasm.{
  Addr, Result, ok, err, panic, ◌>>=◌, ◌>>◌, fail_if, generic_err, add_128, Env,
}
use position_managers.Common.{token}
use position_managers.Message.{
  CosmosMsg, wasm_execute, deposit_stable, cw20_send, mint_open_position, mint_deposit, mint_mint,
  pair_swap,
}
use position_managers.Anchor.{get_anchor_ust_exchange_rate}
use position_managers.AnchorEarnProxy.{uusd, uusd_coin}
use position_managers.Dex.{compute_terraswap_offer_amount}
use position_managers.DeltaNeutralManager.State.{Context}
use position_managers.DeltaNeutralManager.Rebalance.{
  TargetCollateralRatioRange, is_mirror_asset_delisted,
}
use position_managers.Chain.{PairInfo, Chain}
use position_managers.DeltaNeutralPosition.Math.{times, reverse_decimal, decimal_division, midpoint}
use position_managers.DeltaNeutralPosition.Dex.{
  cw20_asset, simulate_terraswap_swap, get_terraswap_mirror_asset_uusd_liquidity_info,
}
use position_managers.DeltaNeutralPosition.Search.{search_rightmost}
use position_managers.DeltaNeutralPosition.Util.{min_target_cr_range_width}

-- What does not change while the amount of collateral is searched for.
pub record Market : Type 0 where
  pub anchor_ust_exchange_rate : ℕ
  pub mirror_asset_oracle_uusd_rate : ℕ
  pub collateral_ratio : ℕ
  pub pool_mirror_asset_balance : ℕ
  pub pool_uusd_balance : ℕ

-- The aUST that some uusd buys, and the mirror assets minted against it.
unfoldable pub collateral_and_mint : Chain → Market → ℕ → Result (ℕ × ℕ)
unfolding decimal_division reverse_decimal
collateral_and_mint c market uusd_collateral_amount = do
  quotient ← c.anchor.div_256 uusd_collateral_amount market.anchor_ust_exchange_rate
  collateral_anchor_ust_amount ← c.anchor.to_uint128 quotient
  rate ← c.decimal_of market.anchor_ust_exchange_rate
  price ← decimal_division c rate market.mirror_asset_oracle_uusd_rate
  reversed ← reverse_decimal c market.collateral_ratio
  worth ← times c collateral_anchor_ust_amount price
  mint_amount ← times c worth reversed
  ok (collateral_anchor_ust_amount, mint_amount)

-- The uusd that buys back what the short swap has sold.
unfoldable pub long_swap_amount : Chain → Market → ℕ → Result (Result ℕ)
unfolding simulate_terraswap_swap compute_terraswap_offer_amount
long_swap_amount c market mint_amount = do
  (pool_mirror_asset, pool_uusd, returned) ←
      simulate_terraswap_swap c market.pool_mirror_asset_balance market.pool_uusd_balance
        mint_amount
  ok (compute_terraswap_offer_amount c.decimal256 pool_mirror_asset pool_uusd mint_amount)

-- `uusd_long_swap_amount.map_or_else(|_| false, |amount| collateral + amount <= uusd_amount)`
unfoldable pub stays_within : ℕ → ℕ → Result ℕ → Result Bool
stays_within uusd_amount uusd_collateral_amount (ok amount) =
    add_128 uusd_collateral_amount amount >>= λ total. ok (leb total uusd_amount)
stays_within uusd_amount uusd_collateral_amount (err e) = ok false
stays_within uusd_amount uusd_collateral_amount panic = panic

unfoldable pub feasible : Chain → Market → ℕ → ℕ → Result Bool
unfolding collateral_and_mint long_swap_amount stays_within
feasible c market uusd_amount uusd_collateral_amount = do
  (collateral_anchor_ust_amount, mint_amount) ← collateral_and_mint c market uusd_collateral_amount
  long_swap ← long_swap_amount c market mint_amount
  stays_within uusd_amount uusd_collateral_amount long_swap

-- As many rounds as the bits of a Uint128.
abbrev pub rounds : ℕ
rounds = 128

-- The largest feasible amount of collateral, with what follows from it.
pub record Investment : Type 0 where
  pub uusd_collateral_amount : ℕ
  pub collateral_anchor_ust_amount : ℕ
  pub mirror_asset_mint_amount : ℕ
  pub uusd_long_swap_amount : ℕ

unfoldable pub find_investment : Chain → Market → ℕ → Result Investment
unfolding search_rightmost feasible collateral_and_mint long_swap_amount
find_investment c market uusd_amount = do
  uusd_collateral_amount ← search_rightmost (feasible c market uusd_amount) rounds 0 uusd_amount
  (collateral_anchor_ust_amount, mint_amount) ← collateral_and_mint c market uusd_collateral_amount
  long_swap ← long_swap_amount c market mint_amount
  uusd_long_swap_amount ← long_swap
  ok (record {
    uusd_collateral_amount = uusd_collateral_amount;
    collateral_anchor_ust_amount = collateral_anchor_ust_amount;
    mirror_asset_mint_amount = mint_amount;
    uusd_long_swap_amount = uusd_long_swap_amount;
  })

unfoldable pub open_or_increase_cdp : Context → ℕ → ℕ → Addr → ℕ → Option ℕ → List CosmosMsg
open_or_increase_cdp context collateral_ratio collateral_anchor_ust_amount mirror_asset_cw20_addr
      mirror_asset_mint_amount none =
    wasm_execute context.anchor_ust_cw20_addr
      (cw20_send context.mirror_mint_addr collateral_anchor_ust_amount
        (mint_open_position (token mirror_asset_cw20_addr) collateral_ratio))
      []
    ∷ []
open_or_increase_cdp context collateral_ratio collateral_anchor_ust_amount mirror_asset_cw20_addr
      mirror_asset_mint_amount (some position_idx) =
    wasm_execute context.anchor_ust_cw20_addr
      (cw20_send context.mirror_mint_addr collateral_anchor_ust_amount (mint_deposit position_idx))
      []
    ∷ wasm_execute context.mirror_mint_addr
        (mint_mint position_idx (cw20_asset mirror_asset_cw20_addr mirror_asset_mint_amount)) []
    ∷ []

-- The messages of an investment: the deposit, the debt position, and the swap.
unfoldable pub invest_messages :
    Context → PairInfo → ℕ → Addr → Option ℕ → Investment → List CosmosMsg
unfolding open_or_increase_cdp
invest_messages context pair_info collateral_ratio mirror_asset_cw20_addr cdp_idx found =
    wasm_execute context.anchor_market_addr deposit_stable
      (uusd_coin found.uusd_collateral_amount ∷ [])
    ∷ (open_or_increase_cdp context collateral_ratio found.collateral_anchor_ust_amount
          mirror_asset_cw20_addr found.mirror_asset_mint_amount cdp_idx
        ++ (wasm_execute pair_info.contract_addr (pair_swap (uusd found.uusd_long_swap_amount))
              (uusd_coin found.uusd_long_swap_amount ∷ [])
            ∷ []))

unfoldable pub delta_neutral_invest :
    Chain
    → Env
    → Context
    → ℕ
    → TargetCollateralRatioRange
    → Addr
    → ℕ
    → Option ℕ
    → Result (List CosmosMsg)
unfolding get_terraswap_mirror_asset_uusd_liquidity_info get_anchor_ust_exchange_rate midpoint
    find_investment invest_messages
delta_neutral_invest c env context uusd_amount range mirror_asset_cw20_addr
      mirror_asset_oracle_uusd_rate cdp_idx =
    do
      (pair_info, pool_mirror_asset_balance, pool_uusd_balance) ←
          get_terraswap_mirror_asset_uusd_liquidity_info c context.terraswap_factory_addr
            mirror_asset_cw20_addr
      config ← c.mirror.query_asset_config context.mirror_mint_addr mirror_asset_cw20_addr
      fail_if (is_mirror_asset_delisted config) (generic_err "mAsset is delisted")
      least_min ← add_128 config.min_collateral_ratio context.collateral_ratio_safety_margin
      fail_if (ltb range.min least_min) (generic_err "target_min_collateral_ratio too small")
      least_max ← add_128 range.min min_target_cr_range_width
      fail_if (ltb range.max least_max) (generic_err "target_max_collateral_ratio too small")
      anchor_ust_exchange_rate ←
          get_anchor_ust_exchange_rate c.anchor env context.anchor_market_addr
      collateral_ratio ← midpoint range
      found ←
          find_investment c
            (record {
              anchor_ust_exchange_rate = anchor_ust_exchange_rate;
              mirror_asset_oracle_uusd_rate = mirror_asset_oracle_uusd_rate;
              collateral_ratio = collateral_ratio;
              pool_mirror_asset_balance = pool_mirror_asset_balance;
              pool_uusd_balance = pool_uusd_balance;
            })
            uusd_amount
      ok (invest_messages context pair_info collateral_ratio mirror_asset_cw20_addr cdp_idx found)
