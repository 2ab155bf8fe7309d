-- ===== src/DeltaNeutralPosition/Fees.antt =====
-- The performance fee of contracts/delta_neutral_position/src/contract.rs.
use native.Mathlib.Nat.{mul-le-mul_left}
use position_managers.Prelude.{
  ℕ, ◌+◌, ◌-◌, ◌*◌, ◌/◌, ◌^◌, ◌≤◌, ◌<◌, ◌≡◌, sym, ap, ◌∙◌, ◌⊎◌, inl, inr, some, List, [], ◌∷◌, ◌++◌,
  ltb, ltb→lt, true, false, ◌==◌, ==_iff, Bool-cases, arith,
}
use position_managers.Cosmwasm.{
  ok, chain, branch, ok-injective, load, load-eq-ok, add_128, add_128-eq, sub_128, sub_128-eq, Env,
}
use position_managers.Message.{CosmosMsg, bank_send}
use position_managers.AnchorEarnProxy.{uusd_coin}
use position_managers.DeltaNeutralManager.State.{Context, FeeCollectionConfig}
use position_managers.DeltaNeutralManager.Rebalance.{PositionState}
use position_managers.Chain.{Chain, ChainLaws}
use position_managers.DeltaNeutralPosition.Math.{times}
use position_managers.DeltaNeutralPosition.State.{State}
use position_managers.DeltaNeutralPosition.Util.{
  get_position_state, get_cdp_uusd_lock_info_result, get_fee_collection_config_from_manager,
}
use position_managers.DeltaNeutralPosition.Closing.{
  with_locked, gain_over, close_cdp, collect_fee, close_cdp_and_collect_fees,
}

-- A fee is part of what the position has gained since the last one; with it goes the value after
-- the fee, which is not less than the value at the last one.
pub record Charged (last_value position_value fee : ℕ) : Type 0 where
  pub gained : last_value < position_value
  pub of_the_gain : fee ≤ position_value - last_value
  pub not_lowered : last_value ≤ position_value - fee

-- Without a fee nothing is stored or added; with one it is sent to the collector, and the value
-- after the fee is stored.
abbrev pub Outcome :
    State → FeeCollectionConfig → ℕ → ℕ → ℕ → List CosmosMsg → List CosmosMsg → State → Type 0
Outcome s config last_value position_value fee closing messages t =
    ((fee ≡ 0) × (messages ≡ closing) × (t ≡ s))
    ⊎ (Charged last_value position_value fee
        × (messages ≡ closing ++ (bank_send config.collector_addr (uusd_coin fee ∷ []) ∷ []))
        × (t ≡ record s { last_fee_collection_position_uusd_value = some (position_value - fee) }))

Charged-of_rate :
    (last value rate fee : ℕ)
    → rate ≤ 10 ^ 18
    → fee ≡ gain_over last value * rate / 10 ^ 18
    → (fee == 0) ≡ false
    → Charged last value fee
unfolding gain_over
Charged-of_rate last value rate fee small is_fee due = elim (Bool-cases (ltb last value)) [
  | inl more ↦ of_gain more (rw more at is_fee)
  | inr less ↦ absurd (nothing (rw less at is_fee))
]
  where
    of_gain : ltb last value ≡ true → fee ≡ (value - last) * rate / 10 ^ 18 → Charged last value fee
    of_gain more e =
        let lt = ltb→lt last value more in
        let part : (value - last) * rate ≤ (value - last) * 10 ^ 18 =
          mul-le-mul_left (value - last) small in
        let part_le : fee ≤ value - last = omega arith in
        record { gained = lt; of_the_gain = part_le; not_lowered = omega arith }

    nothing : fee ≡ 0 * rate / 10 ^ 18 → ⊥
    nothing e = ground arith

collect_fee-Outcome :
    (s : State) (config : FeeCollectionConfig) (last value fee : ℕ)
    (closing messages : List CosmosMsg) (t : State)
    → config.performance_rate ≤ 10 ^ 18
    → fee ≡ gain_over last value * config.performance_rate / 10 ^ 18
    → collect_fee s config value fee closing ≡ ok (messages, t)
    → Outcome s config last value fee closing messages t
unfolding collect_fee
collect_fee-Outcome s config last value fee closing messages t small is_fee e =
    branch (fee == 0) _ _ e
      (λ nothing e. inl (
        (==_iff fee 0).0 nothing,
        sym (ap (λ (p : List CosmosMsg × State). p.0) (ok-injective e)),
        sym (ap (λ (p : List CosmosMsg × State). p.1) (ok-injective e)),
      ))
      (λ due e. chain (sub_128 value fee) _ e λ left e₁ e. inr (
        Charged-of_rate last value config.performance_rate fee small is_fee due,
        sym (ap (λ (p : List CosmosMsg × State). p.0) (ok-injective e)),
        sym (ap (λ (p : List CosmosMsg × State). p.1) (ok-injective e))
            ∙ ap (λ n. record s { last_fee_collection_position_uusd_value = some n })
                (sub_128-eq value fee left e₁).0,
      ))

-- Collecting fees charges a gain only. The value of the position is its collateral, its uusd, the
-- uusd of its LP tokens and the proceeds that are locked; the fee is the rate's part of the amount
-- by which this exceeds the last value stored, and, for a rate of at most one, no more than that
-- amount. It goes to the collector in one message after those that close the debt position, and the
-- value stored next is never less than the last. When there is no fee the storage stays as it was.
-- The arithmetic is as documented.
pub close_cdp_and_collect_fees-Outcome :
    (c : Chain) (s : State) (env : Env) (context : Context) (config : FeeCollectionConfig)
    (messages : List CosmosMsg) (t : State)
    → ChainLaws c
    → get_fee_collection_config_from_manager c s ≡ ok config
    → config.performance_rate ≤ 10 ^ 18
    → close_cdp_and_collect_fees c s env context ≡ ok (messages, t)
    → (state : PositionState) × (last_value : ℕ) × (position_value : ℕ) × (fee : ℕ)
      × (closing : List CosmosMsg) × (get_position_state c s env context ≡ ok state)
      × (with_locked
            (get_cdp_uusd_lock_info_result c s context)
            (state.collateral_uusd_value + state.uusd_balance + state.uusd_long_farm)
          ≡ ok position_value)
      × (s.last_fee_collection_position_uusd_value ≡ some last_value)
      × (close_cdp c s env context state ≡ ok closing)
      × (fee ≡ gain_over last_value position_value * config.performance_rate / 10 ^ 18)
      × Outcome s config last_value position_value fee closing messages t
unfolding close_cdp_and_collect_fees
close_cdp_and_collect_fees-Outcome c s env context config messages t laws known small e =
    chain (get_position_state c s env context) _ e λ state e₀ e.
      chain (add_128 state.collateral_uusd_value state.uusd_balance) _ e λ sum e₁ e.
        chain (add_128 sum state.uusd_long_farm) _ e λ unlocked e₅ e.
          chain (with_locked (get_cdp_uusd_lock_info_result c s context) unlocked) _ e λ value e₆ e.
            chain (load s.last_fee_collection_position_uusd_value) _ e λ last e₂ e.
              chain (times c (gain_over last value) config.performance_rate) _ (rw known at e)
                λ fee e₃ e. chain (close_cdp c s env context state) _ e λ closing e₄ e. (
                  state,
                  last,
                  value,
                  fee,
                  closing,
                  e₀,
                  rw
                      (
                        sym (add_128-eq state.collateral_uusd_value state.uusd_balance sum e₁),
                        sym (add_128-eq sum state.uusd_long_farm unlocked e₅),
                      )
                      e₆,
                  load-eq-ok s.last_fee_collection_position_uusd_value e₂,
                  e₄,
                  laws.multiplies (gain_over last value) config.performance_rate fee e₃,
                  collect_fee-Outcome s config last value fee closing messages t small
                      (laws.multiplies (gain_over last value) config.performance_rate fee e₃) e,
                )
