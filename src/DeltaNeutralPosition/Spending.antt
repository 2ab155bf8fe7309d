-- ===== src/DeltaNeutralPosition/Spending.antt =====
-- The uusd that the messages of contracts/delta_neutral_position/src send, against what there is.
use native.Mathlib.Nat.{div-le_of_le-mul}
use position_managers.Prelude.{
  ℕ, ◌+◌, ◌*◌, ◌/◌, ◌^◌, ◌≤◌, ◌≡◌, ◌≢◌, sym, ap, ◌∙◌, ◌⊎◌, inl, inr, true, Option, none, some, List,
  [], ◌∷◌, leb, leb→le, ltb, arith,
}
use position_managers.Cosmwasm.{
  Addr, ok, ok-injective, chain, guarded-elim, ◌>>=◌, add_128, add_128-eq, Coin,
}
use position_managers.Message.{CosmosMsg, wasm_execute, wasm_instantiate, wasm_migrate, bank_send}
use position_managers.Dex.{
  Decimal256, Decimal256Laws, mul_256, search, simulated_return_amount, uint128_max,
  compute_terraswap_offer_amount,
}
use position_managers.Dex.Search.{search_idle}
use position_managers.DeltaNeutralManager.State.{Context}
use position_managers.Chain.{Chain, ChainLaws, PairInfo}
use position_managers.DeltaNeutralPosition.Math.{times, reverse_decimal, decimal_division}
use position_managers.DeltaNeutralPosition.Dex.{simulate_terraswap_swap}
use position_managers.DeltaNeutralPosition.Open.{
  Market, Investment, collateral_and_mint, long_swap_amount, stays_within, feasible,
  open_or_increase_cdp, invest_messages,
}

-- The coins that messages send along. The contract never sends another coin than uusd.
unfoldable pub total : List Coin → ℕ
total [] = 0
total (coin ∷ coins) = coin.amount + total coins

unfoldable pub spent : List CosmosMsg → ℕ
unfolding total
spent [] = 0
spent (wasm_execute contract_addr msg funds ∷ messages) = total funds + spent messages
spent (bank_send to_address amount ∷ messages) = total amount + spent messages
spent (wasm_instantiate admin code_id ∷ messages) = spent messages
spent (wasm_migrate contract_addr code_id ∷ messages) = spent messages

pub invest-spent :
    (context : Context) (pair : PairInfo) (ratio : ℕ) (mirror_asset : Addr) (cdp_idx : Option ℕ)
    (found : Investment)
    → spent (invest_messages context pair ratio mirror_asset cdp_idx found)
      ≡ found.uusd_collateral_amount + found.uusd_long_swap_amount
unfolding spent total invest_messages open_or_increase_cdp
invest-spent context pair ratio mirror_asset none found = omega arith
invest-spent context pair ratio mirror_asset (some idx) found = omega arith

-- Nothing has to be offered for nothing.
offer_for_nothing :
    (d : Decimal256) (ask_pool offer_pool offer : ℕ)
    → Decimal256Laws d
    → compute_terraswap_offer_amount d ask_pool offer_pool 0 ≡ ok offer
    → offer ≡ 0
unfolding compute_terraswap_offer_amount
offer_for_nothing d ask_pool offer_pool offer laws e =
    guarded-elim (leb ask_pool 0) _ _ e λ enough e.
      chain (mul_256 offer_pool ask_pool) _ e λ cp e₁ e.
        chain
          (search
            (λ offer_amount.
              simulated_return_amount d ask_pool offer_pool cp offer_amount >>= λ returned.
              ok (ltb returned 0))
            128 0 uint128_max)
          _ e
          λ found e₁ e.
            let start : found ≡ 0 =
              search_idle _ 128 0 uint128_max found
                (λ x h.
                  chain (simulated_return_amount d ask_pool offer_pool cp x) _ h
                    λ returned e₂ e₃. never returned (ok-injective e₃))
                e₁ in
            sym (ok-injective (sym (laws.narrow 0 (omega arith)) ∙ (rw start at e)))
  where
    never : (x : ℕ) → ltb x 0 ≢ true
    never x h = ground arith

zero_product : (m r : ℕ) → m ≡ 0 * r / 10 ^ 18 → m ≡ 0
zero_product m r h = omega arith

nothing_divided : (r : ℕ) → 0 * 10 ^ 18 / r ≡ 0
nothing_divided r = let h : 0 * 10 ^ 18 / r ≤ 0 = div-le_of_le-mul r (omega arith) in omega arith

-- No collateral, nothing minted.
mint_of_nothing :
    (c : Chain) (market : Market) (aust mint : ℕ)
    → ChainLaws c
    → collateral_and_mint c market 0 ≡ ok (aust, mint)
    → mint ≡ 0
unfolding collateral_and_mint
mint_of_nothing c market aust mint laws e =
    chain (c.anchor.div_256 0 market.anchor_ust_exchange_rate) _ e λ quotient e₁ e.
      chain (c.anchor.to_uint128 quotient) _ e λ amount e₂ e.
        chain (c.decimal_of market.anchor_ust_exchange_rate) _ e λ rate e₃ e.
          chain (decimal_division c rate market.mirror_asset_oracle_uusd_rate) _ e λ price e₄ e.
            chain (reverse_decimal c market.collateral_ratio) _ e λ reversed e₅ e.
              chain (times c amount price) _ e λ worth e₆ e.
                chain (times c worth reversed) _ e λ minted e₇ e.
                  let quotient_is : quotient ≡ 0 * 10 ^ 18 / market.anchor_ust_exchange_rate =
                    laws.bignum.divides 0 market.anchor_ust_exchange_rate quotient e₁ in
                  let amount_is : amount ≡ 0 =
                    laws.bignum.converts quotient amount e₂
                    ∙ quotient_is
                    ∙ nothing_divided market.anchor_ust_exchange_rate in
                  let worth_is : worth ≡ 0 =
                    zero_product worth price (laws.multiplies 0 price worth (rw amount_is at e₆)) in
                  sym (ap (λ (p : ℕ × ℕ). p.1) (ok-injective e))
                  ∙ zero_product minted reversed
                      (laws.multiplies 0 reversed minted (rw worth_is at e₇))

-- An amount of collateral that is nothing, or within the budget together with the swap that it
-- needs.
unfoldable pub Affordable : Chain → Market → ℕ → ℕ → Type 0
Affordable c market uusd_amount x = (x ≡ 0) ⊎ (feasible c market uusd_amount x ≡ ok true)

pub Affordable-within :
    (c : Chain) (market : Market) (uusd_amount x aust mint swap_amount : ℕ)
    → ChainLaws c
    → Affordable c market uusd_amount x
    → collateral_and_mint c market x ≡ ok (aust, mint)
    → long_swap_amount c market mint ≡ ok (ok swap_amount)
    → x + swap_amount ≤ uusd_amount
unfolding Affordable feasible stays_within long_swap_amount
Affordable-within c market uusd_amount x aust mint swap_amount laws (inr fits) minted swapped =
    chain (add_128 x swap_amount) _ (rw (minted, swapped) at fits) λ sum e₁ e.
      let below : leb sum uusd_amount ≡ true = ok-injective e in
      leb→le (x + swap_amount) uusd_amount (rw (add_128-eq x swap_amount sum e₁) at below)
Affordable-within c market uusd_amount x aust mint swap_amount laws (inl nothing) minted swapped =
    let mint_is : mint ≡ 0 = mint_of_nothing c market aust mint laws (rw nothing at minted) in
    let swap_is : swap_amount ≡ 0 = no_swap (rw mint_is at swapped) in omega arith
  where
    no_swap : long_swap_amount c market 0 ≡ ok (ok swap_amount) → swap_amount ≡ 0
    no_swap e =
        chain
          (simulate_terraswap_swap c market.pool_mirror_asset_balance market.pool_uusd_balance 0) _
          e
          λ pools e₁ e.
            offer_for_nothing c.decimal256 pools.0 pools.1 swap_amount laws.decimals
              (ok-injective e)
