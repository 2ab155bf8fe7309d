-- ===== src/DeltaNeutralPosition/Restoring/Short/Withdrawal.antt =====
-- The withdrawal of LP tokens for a net short position in
-- contracts/delta_neutral_position/src/rebalance.rs.
use position_managers.Prelude.{
  ℕ, ◌+◌, ◌-◌, ◌*◌, ◌/◌, ◌^◌, ◌≤◌, ◌<◌, ◌≡◌, refl, sym, ◌∙◌, Bool, true, false, ltb, ltb→lt,
  ltb-eq-false, arith,
}
use position_managers.Cosmwasm.{ok, ok-injective, chain, add_128, add_128-eq, sub_128, sub_128-eq}
use position_managers.DeltaNeutralManager.Rebalance.{PositionState}
use position_managers.Chain.{Chain, ChainLaws}
use position_managers.DeltaNeutralPosition.Math.{times}
use position_managers.DeltaNeutralPosition.Dex.{simulate_terraswap_swap}
use position_managers.DeltaNeutralPosition.Rebalance.Unbonding.{
  Farm, rounds, lp_token_amount_after_withdrawal,
}
use position_managers.DeltaNeutralPosition.Rebalance.NetShort.{stays_short, withdrawal_of_short}
use position_managers.DeltaNeutralPosition.Restoring.{Turns, search_leftmost-Turns}

-- A part of an amount, as a fraction of a whole, rounded down twice.
abbrev pub portion : ℕ → ℕ → ℕ → ℕ
portion amount part whole = amount * (part * 10 ^ 18 / whole) / 10 ^ 18

-- The mirror assets of a position after a withdrawal, once all uusd is swapped for them: the liquid
-- ones, those withdrawn, those that the swap returns, and the part of the pool that is left.
abbrev pub ShortAfter : Chain → Farm → PositionState → ℕ → ℕ → Type 0
ShortAfter c farm state withdrawn long_amount =
    let info = state.terraswap_pool_info in
    let supply = info.lp_token_total_supply in
    let mirror_asset = portion info.terraswap_pool_mirror_asset_amount withdrawn supply in
    let uusd_amount = portion info.terraswap_pool_uusd_amount withdrawn supply in
    (lp_after : ℕ) × (pools : ℕ × ℕ × ℕ) × (lp_token_amount_after_withdrawal c farm info withdrawn
      ≡ ok lp_after)
    × (withdrawn ≤ supply)
    × (simulate_terraswap_swap c (info.terraswap_pool_uusd_amount - uusd_amount)
          (info.terraswap_pool_mirror_asset_amount - mirror_asset)
          (uusd_amount + state.uusd_balance)
        ≡ ok pools)
    × (long_amount
        ≡ state.mirror_asset_balance
          + mirror_asset
          + pools.2
          + portion pools.1 lp_after (supply - withdrawn))

abbrev pub StillShort : Chain → Farm → PositionState → ℕ → Type 0
StillShort c farm state withdrawn =
    (long_amount : ℕ) × ShortAfter c farm state withdrawn long_amount
    × (long_amount < state.mirror_asset_short_amount)

abbrev pub NotShort : Chain → Farm → PositionState → ℕ → Type 0
NotShort c farm state withdrawn =
    (long_amount : ℕ) × ShortAfter c farm state withdrawn long_amount
    × (state.mirror_asset_short_amount ≤ long_amount)

pub portion_is :
    (c : Chain) (amount part whole ratio result : ℕ)
    → ChainLaws c
    → c.from_ratio part whole ≡ ok ratio
    → times c amount ratio ≡ ok result
    → result ≡ portion amount part whole
portion_is c amount part whole ratio result laws e e' =
    laws.multiplies amount ratio result e' ∙ rw (laws.ratio part whole ratio e) refl

stays_short-ShortAfter :
    (c : Chain) (farm : Farm) (state : PositionState) (withdrawn : ℕ) (short : Bool)
    → ChainLaws c
    → stays_short c farm state withdrawn ≡ ok short
    → (long_amount : ℕ) × ShortAfter c farm state withdrawn long_amount
      × (ltb long_amount state.mirror_asset_short_amount ≡ short)
unfolding stays_short
stays_short-ShortAfter c farm state withdrawn short laws e =
    let info = state.terraswap_pool_info in
    let supply = info.lp_token_total_supply in
    let pool_mirror = info.terraswap_pool_mirror_asset_amount in
    let pool_uusd = info.terraswap_pool_uusd_amount in
    chain (c.from_ratio withdrawn supply) _ e λ fraction e₁ e.
      chain (times c pool_mirror fraction) _ e λ mirror_asset e₂ e.
        chain (times c pool_uusd fraction) _ e λ uusd_amount e₃ e.
          chain (sub_128 pool_mirror mirror_asset) _ e λ mirror_left e₄ e.
            chain (sub_128 pool_uusd uusd_amount) _ e λ uusd_left e₅ e.
              chain (lp_token_amount_after_withdrawal c farm info withdrawn) _ e λ lp_after e₆ e.
                chain (add_128 uusd_amount state.uusd_balance) _ e λ offer e₇ e.
                  chain (simulate_terraswap_swap c uusd_left mirror_left offer) _ e λ pools e₈ e.
                    chain (sub_128 supply withdrawn) _ e λ left e₉ e.
                      chain (c.from_ratio lp_after left) _ e λ ratio e₁₀ e.
                        chain (times c pools.1 ratio) _ e λ long_farm e₁₁ e.
                          chain (add_128 state.mirror_asset_balance mirror_asset) _ e
                            λ liquid e₁₂ e. chain (add_128 liquid pools.2) _ e λ swapped e₁₃ e.
                              chain (add_128 swapped long_farm) _ e λ amount e₁₄ e.
                                let (left_is, fits) = sub_128-eq supply withdrawn left e₉ in
                                let mirror_is =
                                  portion_is c pool_mirror withdrawn supply fraction mirror_asset
                                    laws e₁ e₂ in
                                let uusd_is =
                                  portion_is c pool_uusd withdrawn supply fraction uusd_amount laws
                                    e₁ e₃ in
                                let mirror_left_is =
                                  (sub_128-eq pool_mirror mirror_asset mirror_left e₄).0 in
                                let uusd_left_is =
                                  (sub_128-eq pool_uusd uusd_amount uusd_left e₅).0 in
                                let offer_is = add_128-eq uusd_amount state.uusd_balance offer e₇ in
                                let farm_is =
                                  portion_is c pools.1 lp_after left ratio long_farm laws e₁₀ e₁₁ in
                                let sum_is =
                                  sums _ _ _ _ _ _ _
                                    (add_128-eq state.mirror_asset_balance mirror_asset liquid e₁₂)
                                    (add_128-eq liquid pools.2 swapped e₁₃)
                                    (add_128-eq swapped long_farm amount e₁₄) in
                                (
                                  amount,
                                  (
                                    lp_after,
                                    pools,
                                    e₆,
                                    fits,
                                    rw
                                        (
                                          sym uusd_is,
                                          sym mirror_is,
                                          sym mirror_left_is,
                                          sym uusd_left_is,
                                          sym offer_is,
                                        )
                                        e₈,
                                    rw (sym mirror_is, sym left_is, sym farm_is) sum_is,
                                  ),
                                  ok-injective e,
                                )
  where
    sums : (a b c' d x y z : ℕ) → x ≡ a + b → y ≡ x + c' → z ≡ y + d → z ≡ a + b + c' + d
    sums a b c' d x y z h h' h'' = omega arith

-- What the withdrawal turns.
abbrev pub WithdrawalTurns : Chain → Farm → PositionState → ℕ → Type 0
WithdrawalTurns c farm state withdrawn =
    Turns (StillShort c farm state) (NotShort c farm state)
      (state.terraswap_pool_info.lp_token_amount + 1) withdrawn

pub withdrawal_of_short-Turns :
    (c : Chain) (farm : Farm) (state : PositionState) (withdrawn : ℕ)
    → ChainLaws c
    → withdrawal_of_short c farm state ≡ ok withdrawn
    → WithdrawalTurns c farm state withdrawn
unfolding withdrawal_of_short
withdrawal_of_short-Turns c farm state withdrawn laws e =
    chain (add_128 state.terraswap_pool_info.lp_token_amount 1) _ e λ end e₁ found.
      rw (sym (add_128-eq state.terraswap_pool_info.lp_token_amount 1 end e₁)) (
        search_leftmost-Turns (stays_short c farm state) (StillShort c farm state)
          (NotShort c farm state) end
          (λ x h.
            let (amount, is_after, test) = stays_short-ShortAfter c farm state x true laws h in
            (amount, is_after, ltb→lt amount state.mirror_asset_short_amount test))
          (λ x h.
            let (amount, is_after, test) = stays_short-ShortAfter c farm state x false laws h in
            (amount, is_after, ltb-eq-false amount state.mirror_asset_short_amount test))
          rounds withdrawn found)
