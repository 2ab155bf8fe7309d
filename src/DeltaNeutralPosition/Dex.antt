-- ===== src/DeltaNeutralPosition/Dex.antt =====
-- contracts/delta_neutral_position/src/dex_util.rs: pairs of a cw20 token and uusd, the better of
-- two exchanges, and Terraswap's pools simulated.
use position_managers.Prelude.{ℕ, [], leb, ◌==◌, if◌then◌else◌}
use position_managers.Cosmwasm.{Addr, Result, ok, err, panic, ◌>>=◌, add_128, sub_128, mul_128}
use position_managers.Common.{native_token, token, Asset}
use position_managers.Message.{CosmosMsg, wasm_execute, cw20_send, swap}
use position_managers.Dex.{mul_256, simulated_return_amount}
use position_managers.Chain.{PairInfo, PairAssets, Chain}

-- `create_terraswap_cw20_uusd_pair_asset_info`, and the same of Astroport
abbrev pub cw20_uusd_pair_asset_info : Addr → PairAssets
cw20_uusd_pair_asset_info cw20_token_addr = (token cw20_token_addr, native_token "uusd")

abbrev pub cw20_asset : Addr → ℕ → Asset
cw20_asset contract_addr amount = record { info = token contract_addr; amount = amount }

-- What an exchange returns, if its pair is found and answers, and 0 otherwise.
unfoldable pub quoted : Result ℕ → ℕ
quoted (ok amount) = amount
quoted (err e) = 0
quoted panic = 0

unfoldable pub terraswap_return : Chain → Addr → Addr → ℕ → ℕ
unfolding quoted
terraswap_return c terraswap_factory_addr cw20_token_addr amount = quoted (
    c.terraswap_pair terraswap_factory_addr (cw20_uusd_pair_asset_info cw20_token_addr) >>= λ pair.
    c.terraswap_simulate pair.contract_addr (cw20_asset cw20_token_addr amount))

unfoldable pub astroport_return : Chain → Addr → Addr → ℕ → ℕ
unfolding quoted
astroport_return c astroport_factory_addr cw20_token_addr amount = quoted (
    c.astroport_pair astroport_factory_addr (cw20_uusd_pair_asset_info cw20_token_addr)
    >>= λ pair_addr. c.astroport_simulate pair_addr (cw20_asset cw20_token_addr amount))

abbrev pub swap_msg : Addr → Addr → ℕ → CosmosMsg
swap_msg cw20_token_addr pair_addr amount =
    wasm_execute cw20_token_addr (cw20_send pair_addr amount swap) []

unfoldable pub swap_cw20_token_for_uusd : Chain → Addr → Addr → Addr → ℕ → Result (CosmosMsg × ℕ)
unfolding terraswap_return astroport_return
swap_cw20_token_for_uusd c terraswap_factory_addr astroport_factory_addr cw20_token_addr amount =
    let terraswap = terraswap_return c terraswap_factory_addr cw20_token_addr amount in
    let astroport = astroport_return c astroport_factory_addr cw20_token_addr amount in
    if leb astroport terraswap
    then (do
      pair ← c.terraswap_pair terraswap_factory_addr (cw20_uusd_pair_asset_info cw20_token_addr)
      ok (swap_msg cw20_token_addr pair.contract_addr amount, terraswap))
    else (do
      pair_addr ←
          c.astroport_pair astroport_factory_addr (cw20_uusd_pair_asset_info cw20_token_addr)
      ok (swap_msg cw20_token_addr pair_addr amount, astroport))

-- `Uint128::try_from(..).unwrap()`
unfoldable pub unwrap_result {ℓ} : {A : Type ℓ} → Result A → Result A
unwrap_result (ok a) = ok a
unwrap_result (err e) = panic
unwrap_result panic = panic

-- (offer pool after the swap, ask pool after the swap, returned)
unfoldable pub simulate_terraswap_swap : Chain → ℕ → ℕ → ℕ → Result (ℕ × ℕ × ℕ)
unfolding unwrap_result
simulate_terraswap_swap c offer_pool_amount ask_pool_amount offer_amount = do
  offer_pool_amount_after_swap ← add_128 offer_pool_amount offer_amount
  cp ← mul_256 offer_pool_amount ask_pool_amount
  returned ← simulated_return_amount c.decimal256 ask_pool_amount offer_pool_amount cp offer_amount
  return_amount ← unwrap_result (c.decimal256.to_uint128 returned)
  ask_pool_amount_after_swap ← sub_128 ask_pool_amount return_amount
  ok (offer_pool_amount_after_swap, ask_pool_amount_after_swap, return_amount)

unfoldable pub compute_terraswap_liquidity_token_mint_amount : Chain → ℕ → ℕ → ℕ → ℕ → ℕ → Result ℕ
compute_terraswap_liquidity_token_mint_amount c token_a_provide_amount token_b_provide_amount
      token_a_pool_amount token_b_pool_amount liquidity_token_supply =
    if liquidity_token_supply == 0
    then (do
      product ← mul_128 token_a_provide_amount token_b_provide_amount
      ok (c.integer_sqrt product))
    else (do
      by_a ← c.multiply_ratio token_a_provide_amount liquidity_token_supply token_a_pool_amount
      by_b ← c.multiply_ratio token_b_provide_amount liquidity_token_supply token_b_pool_amount
      ok (if leb by_a by_b then by_a else by_b))

unfoldable pub get_terraswap_mirror_asset_uusd_liquidity_info :
    Chain → Addr → Addr → Result (PairInfo × ℕ × ℕ)
get_terraswap_mirror_asset_uusd_liquidity_info c terraswap_factory_addr mirror_asset_cw20_addr = do
  let assets = cw20_uusd_pair_asset_info mirror_asset_cw20_addr
  pair ← c.terraswap_pair terraswap_factory_addr assets
  pool_mirror_asset_amount ← c.query_pool assets.0 pair.contract_addr
  pool_uusd_amount ← c.query_pool assets.1 pair.contract_addr
  ok (pair, pool_mirror_asset_amount, pool_uusd_amount)
