-- ===== src/DeltaNeutralPosition/Restoring/Short.antt =====
-- A net short position in contracts/delta_neutral_position/src/rebalance.rs.
pub mod Withdrawal
use position_managers.Prelude.{
  ℕ, ◌+◌, ◌-◌, ◌*◌, ◌/◌, ◌^◌, ◌≤◌, ◌<◌, ◌≡◌, refl, sym, ap, ◌∙◌, Bool, true, false, List, [], ◌∷◌,
  ◌++◌, ltb, ltb→lt, ltb-eq-false, arith,
}
use position_managers.Cosmwasm.{
  Addr, ok, ok-injective, chain, add_128, add_128-eq, sub_128, sub_128-eq,
}
use position_managers.Message.{CosmosMsg, wasm_execute, pair_swap}
use position_managers.AnchorEarnProxy.{uusd, uusd_coin}
use position_managers.Dex.{mul_256, simulated_return_amount}
use position_managers.Dex.Offer.{kept, net, kept-antitone, net-antitone, simulated-eq}
use position_managers.DeltaNeutralManager.State.{Context}
use position_managers.DeltaNeutralManager.Rebalance.{PositionState}
use position_managers.Chain.{Chain, ChainLaws}
use position_managers.DeltaNeutralPosition.Math.{times}
use position_managers.DeltaNeutralPosition.Dex.{simulate_terraswap_swap, unwrap_result}
use position_managers.DeltaNeutralPosition.Rebalance.Unbonding.{
  Farm, rounds, lp_token_amount_after_withdrawal,
}
use position_managers.DeltaNeutralPosition.Rebalance.NetShort.{
  Reserves, stays_short, is_short_after, withdrawal_of_short, withdraw_from_short,
  first_neutral_offer, rebalance_net_short,
}
use position_managers.DeltaNeutralPosition.Restoring.{
  Turns, search_leftmost-Turns, search_leftmost-Splits, share_grows, share_le, search_leftmost-le,
}
use position_managers.DeltaNeutralPosition.Restoring.Short.Withdrawal.{
  portion, portion_is, WithdrawalTurns, withdrawal_of_short-Turns,
}

-- The mirror assets of a position that has swapped some uusd for them: its part of the pool, what
-- the constant product returns less the commission, and those it had.
abbrev pub returned : Reserves → ℕ → ℕ
returned reserves offer =
    net reserves.pool_mirror_asset_amount
      (kept reserves.pool_mirror_asset_amount reserves.pool_uusd_amount offer)

abbrev pub long_after_swap : Reserves → ℕ → ℕ
long_after_swap reserves offer =
    portion (reserves.pool_mirror_asset_amount - returned reserves offer) reserves.lp_token_amount
      reserves.lp_token_total_supply
    + returned reserves offer
    + reserves.mirror_asset_balance

-- Pools that fit a Uint128, with some uusd, and no more LP tokens than there are.
pub record IsSound (reserves : Reserves) : Type 0 where
  pub some_uusd : 0 < reserves.pool_uusd_amount
  pub uusd_fits : reserves.pool_uusd_amount < 2 ^ 128
  pub mirror_asset_fits : reserves.pool_mirror_asset_amount < 2 ^ 128
  pub part : reserves.lp_token_amount ≤ reserves.lp_token_total_supply

returned-le :
    (reserves : Reserves) (offer : ℕ) → returned reserves offer ≤ reserves.pool_mirror_asset_amount
unfolding net
returned-le reserves offer =
    bound reserves.pool_mirror_asset_amount
      (kept reserves.pool_mirror_asset_amount reserves.pool_uusd_amount offer)
  where
    bound : (a k : ℕ) → net a k ≤ a
    bound a k = omega arith

simulate-returned :
    (c : Chain) (reserves : Reserves) (offer : ℕ) (pools : ℕ × ℕ × ℕ)
    → ChainLaws c
    → IsSound reserves
    → simulate_terraswap_swap c reserves.pool_uusd_amount reserves.pool_mirror_asset_amount offer
      ≡ ok pools
    → (pools.1 ≡ reserves.pool_mirror_asset_amount - returned reserves offer)
      × (pools.2 ≡ returned reserves offer)
unfolding simulate_terraswap_swap unwrap_result
simulate-returned c reserves offer pools laws sound e =
    let mirror = reserves.pool_mirror_asset_amount in
    let pool_uusd = reserves.pool_uusd_amount in
    let bound = returned-le reserves offer in
    chain (add_128 pool_uusd offer) _ e λ after e₁ e.
      chain (mul_256 pool_uusd mirror) _ e λ cp e₂ e.
        chain (simulated_return_amount c.decimal256 mirror pool_uusd cp offer) _ e λ amount e₃ e.
          let amount_is : amount ≡ returned reserves offer = ok-injective (
            sym e₃
            ∙ (rw (product pool_uusd mirror cp e₂) (
                simulated-eq c.decimal256 laws.decimals mirror pool_uusd sound.some_uusd
                  sound.uusd_fits sound.mirror_asset_fits offer
                  (offer_fits pool_uusd offer after e₁)))) in
          let narrowed =
            laws.decimals.narrow (returned reserves offer)
              (let fits = sound.mirror_asset_fits in omega arith) in
          chain (unwrap_result (c.decimal256.to_uint128 amount)) _ e λ result e₄ e.
            let result_is : returned reserves offer ≡ result =
              unwrapped (returned reserves offer) result (rw (amount_is, narrowed) at e₄) in
            chain (sub_128 mirror result) _ e λ left e₅ e. (
              sym (ap (λ (p : ℕ × ℕ × ℕ). p.1) (ok-injective e))
                  ∙ (sub_128-eq mirror result left e₅).0
                  ∙ ap (λ n. mirror - n) (sym result_is),
              sym (ap (λ (p : ℕ × ℕ × ℕ). p.2) (ok-injective e)) ∙ sym result_is,
            )
  where
    product : (a b p : ℕ) → mul_256 a b ≡ ok p → p ≡ a * b
    product a b p e = ground arith

    offer_fits : (a b p : ℕ) → add_128 a b ≡ ok p → b < 2 ^ 128
    offer_fits a b p e = ground arith

    unwrapped : (a b : ℕ) → unwrap_result (ok a) ≡ ok b → a ≡ b
    unwrapped a b e = ok-injective e

is_short_after-eq-ok :
    (c : Chain) (short : ℕ) (reserves : Reserves) (ratio offer : ℕ) (is_short : Bool)
    → ChainLaws c
    → IsSound reserves
    → c.from_ratio reserves.lp_token_amount reserves.lp_token_total_supply ≡ ok ratio
    → is_short_after c short reserves ratio offer ≡ ok is_short
    → ltb (long_after_swap reserves offer) short ≡ is_short
unfolding is_short_after
is_short_after-eq-ok c short reserves ratio offer is_short laws sound is_ratio e =
    chain
      (simulate_terraswap_swap c reserves.pool_uusd_amount reserves.pool_mirror_asset_amount offer)
      _ e
      λ pools e₁ e. chain (times c pools.1 ratio) _ e λ farm e₂ e.
        chain (add_128 farm pools.2) _ e λ with_returned e₃ e.
          chain (add_128 with_returned reserves.mirror_asset_balance) _ e λ amount e₄ e.
            let (left_is, returned_is) = simulate-returned c reserves offer pools laws sound e₁ in
            let value : amount ≡ long_after_swap reserves offer =
              rw
                (
                  add_128-eq with_returned reserves.mirror_asset_balance amount e₄,
                  add_128-eq farm pools.2 with_returned e₃,
                  portion_is c pools.1 reserves.lp_token_amount reserves.lp_token_total_supply ratio
                      farm laws is_ratio e₂,
                  left_is,
                  returned_is,
                )
                refl in
            rw (sym value) (ok-injective e)

-- Offering more leaves no less.
long_after_swap-monotone :
    (reserves : Reserves) (x y : ℕ)
    → IsSound reserves
    → x ≤ y
    → long_after_swap reserves x ≤ long_after_swap reserves y
long_after_swap-monotone reserves x y sound le =
    let mirror = reserves.pool_mirror_asset_amount in
    more mirror (returned reserves x) (returned reserves y)
      (reserves.lp_token_amount * 10 ^ 18 / reserves.lp_token_total_supply)
      reserves.mirror_asset_balance
      (net-antitone mirror _ _
        (kept-antitone mirror reserves.pool_uusd_amount x y sound.some_uusd le))
      (returned-le reserves y)
      (share_le reserves.lp_token_amount reserves.lp_token_total_supply sound.part)
  where
    more :
        (pool a b share rest : ℕ)
        → a ≤ b
        → b ≤ pool
        → share ≤ 10 ^ 18
        → (pool - a) * share / 10 ^ 18 + a + rest ≤ (pool - b) * share / 10 ^ 18 + b + rest
    more pool a b share rest ab fits small =
        let grown = share_grows (pool - b) (b - a) share small in
        let same : pool - b + (b - a) ≡ pool - a = omega arith in
        let grown' = rw same at grown in omega arith

-- The least offer that leaves a position not net short: every smaller one does, and no larger one.
abbrev pub TurnsNeutral : ℕ → Reserves → ℕ → Type 0
TurnsNeutral short reserves offer =
    ((less : ℕ) → less < offer → long_after_swap reserves less < short)
    × ((more : ℕ)
        → offer ≤ more
        → more ≤ reserves.uusd_balance
        → short ≤ long_after_swap reserves more)
    × (offer ≤ reserves.uusd_balance + 1)

first_neutral_offer-TurnsNeutral :
    (c : Chain) (short : ℕ) (reserves : Reserves) (offer : ℕ)
    → ChainLaws c
    → IsSound reserves
    → first_neutral_offer c short reserves ≡ ok offer
    → TurnsNeutral short reserves offer
unfolding first_neutral_offer
first_neutral_offer-TurnsNeutral c short reserves offer laws sound e =
    chain (add_128 reserves.uusd_balance 1) _ e λ top e₃ e₄.
      chain (c.from_ratio reserves.lp_token_amount reserves.lp_token_total_supply) _ e₄
        λ ratio e₅ turned.
          let top_is = add_128-eq reserves.uusd_balance 1 top e₃ in
          let (before, from) =
            search_leftmost-Splits (is_short_after c short reserves ratio)
              (λ x. long_after_swap reserves x < short) (λ x. short ≤ long_after_swap reserves x)
              top
              (λ x h.
                ltb→lt _ _ (is_short_after-eq-ok c short reserves ratio x true laws sound e₅ h))
              (λ x h.
                ltb-eq-false _ _
                  (is_short_after-eq-ok c short reserves ratio x false laws sound e₅ h))
              rounds offer (λ x y le lt h. le_lt (long_after_swap-monotone reserves x y sound le) h)
              (λ x y le lt h. le_le h (long_after_swap-monotone reserves x y sound le)) turned in
          (
            before,
            (λ x le fits. from x le (omega arith)),
            rw (sym top_is) (
                search_leftmost-le (is_short_after c short reserves ratio) rounds top offer turned),
          )
  where
    le_lt : {a b d : ℕ} → a ≤ b → b < d → a < d
    le_lt h h' = omega arith

    le_le : {a b d : ℕ} → a ≤ b → b ≤ d → a ≤ d
    le_le h h' = omega arith

-- The plan for a net short position: what it offers, and the messages.
pub record ShortPlan (c : Chain) (farm : Farm) (state : PositionState) (withdrawn : ℕ)
    (reserves : Reserves) (messages : List CosmosMsg) : Type 0 where
  pub withdrawal_turns : WithdrawalTurns c farm state withdrawn
  pub offer : ℕ
  pub turns_neutral : TurnsNeutral state.mirror_asset_short_amount reserves offer
  pub sent :
      messages
      ≡ reserves.messages
        ++ (wasm_execute state.terraswap_pool_info.terraswap_pair_addr
              (pair_swap (uusd offer))
              (uusd_coin offer ∷ [])
            ∷ [])

-- A rebalance of a net short position that succeeds withdraws an amount of LP tokens at which the
-- mirror assets of the position, with all its uusd swapped for them, turn from fewer than the short
-- amount to no fewer: with one LP token less there would be fewer, unless nothing is withdrawn, and
-- with the amount there are no fewer, unless it is one more than all LP tokens. From what is held
-- then, for sound pools, it offers uusd on Terraswap: every smaller offer leaves the position net
-- short, and the offer, as every larger one of the uusd held, leaves it not net short. When all of
-- the uusd leaves it net short, the offer is one more than that. The arithmetic is as documented.
pub rebalance_net_short-ShortPlan :
    (c : Chain) (context : Context) (mirror_asset : Addr) (farm : Farm) (state : PositionState)
    (withdrawn : ℕ) (reserves : Reserves) (messages : List CosmosMsg)
    → ChainLaws c
    → withdrawal_of_short c farm state ≡ ok withdrawn
    → withdraw_from_short c context mirror_asset farm state withdrawn ≡ ok reserves
    → IsSound reserves
    → rebalance_net_short c context mirror_asset farm state ≡ ok messages
    → ShortPlan c farm state withdrawn reserves messages
unfolding rebalance_net_short
rebalance_net_short-ShortPlan c context mirror_asset farm state withdrawn reserves messages laws
      is_withdrawn are_reserves sound e =
    chain (withdrawal_of_short c farm state) _ e λ found e₁ e.
      let same : withdrawn ≡ found = ok-injective (sym is_withdrawn ∙ e₁) in
      chain (withdraw_from_short c context mirror_asset farm state found) _ e λ held e₂ e.
        let same_held : reserves ≡ held = ok-injective (
          sym are_reserves
          ∙ ap (λ n. withdraw_from_short c context mirror_asset farm state n) same
          ∙ e₂) in
        chain (first_neutral_offer c state.mirror_asset_short_amount held) _ e λ offer e₃ e.
          rw (same, same_held)
            (record {
              withdrawal_turns = withdrawal_of_short-Turns c farm state found laws e₁;
              offer = offer;
              turns_neutral =
                  first_neutral_offer-TurnsNeutral c state.mirror_asset_short_amount held offer laws
                    (rw same_held at sound) e₃;
              sent = sym (ok-injective e);
            })
