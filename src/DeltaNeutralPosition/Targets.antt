-- ===== src/DeltaNeutralPosition/Targets.antt =====
-- The targets of contracts/delta_neutral_position/src: the better exchange of dex_util.rs, the range
-- of collateral ratios of contract.rs, and the LP tokens that util.rs redeems.
use position_managers.Prelude.{
  ℕ, zero, suc, ◌+◌, ◌^◌, ◌≤◌, ◌<◌, ◌≡◌, refl, sym, ap, ◌∙◌, inl, inr, true, false, leb, ltb,
  ltb→lt, ltb-eq-false, Bool-cases, arith, if◌then◌else◌,
}
use position_managers.Cosmwasm.{Result, ok, ok-injective, chain, branch, ◌>>=◌, add_128, add_128-eq}
use position_managers.DeltaNeutralManager.Rebalance.{TargetCollateralRatioRange}
use position_managers.Chain.{Chain}
use position_managers.DeltaNeutralPosition.Util.{min_target_cr_range_width, raise_lp_amount}
use position_managers.DeltaNeutralPosition.Safety.{raised_range}

-- A range with its minimum raised to a required one meets it, and lowers neither end. It is still as
-- wide as a range has to be if it was before.
pub raised_range-keeps_width :
    (range : TargetCollateralRatioRange) (required : ℕ) (raised : TargetCollateralRatioRange)
    → range.min + min_target_cr_range_width ≤ range.max
    → raised_range range required ≡ ok raised
    → (required ≤ raised.min)
      × (range.min ≤ raised.min)
      × (range.max ≤ raised.max)
      × (raised.min + min_target_cr_range_width ≤ raised.max)
unfolding raised_range
raised_range-keeps_width range required raised wide e =
    branch (ltb range.min required) _ _ e
      (λ too_low e.
        let low = ltb→lt range.min required too_low in
        chain (add_128 required min_target_cr_range_width) _ e λ least_max e₁ e.
          let sum = add_128-eq required min_target_cr_range_width least_max e₁ in
          let max_is = larger range.max least_max in
          rw (sym (ok-injective e)) ((omega arith, omega arith, omega arith, omega arith)))
      (λ high_enough e.
        let high = ltb-eq-false range.min required high_enough in
        rw (sym (ok-injective e)) ((high, omega arith, omega arith, wide)))
  where
    larger : (a b : ℕ) → (a ≤ (if leb a b then b else a)) × (b ≤ (if leb a b then b else a))
    larger a b = ground arith

-- The least number from an estimate on that redeems enough.
abbrev pub LeastEnough : (ℕ → ℕ) → ℕ → ℕ → ℕ → Type 0
LeastEnough amount target estimate r =
    (estimate ≤ r) × (target ≤ amount r) × ((x : ℕ) → estimate ≤ x → x < r → amount x < target)

next_fits : (lp : ℕ) → lp + 1 < 2 ^ 128 → add_128 lp 1 ≡ ok (lp + 1)
next_fits lp h = ground arith

-- One round, and one with too little redeemed.
one_round :
    (redeemed : ℕ → Result ℕ) (target rounds lp : ℕ) {amount : ℕ}
    → redeemed lp ≡ ok amount
    → raise_lp_amount redeemed target (suc rounds) lp ≡ elim (ltb amount target) [
      | true ↦ add_128 lp 1 >>= λ next. raise_lp_amount redeemed target rounds next
      | false ↦ ok lp
    ]
unfolding raise_lp_amount
one_round redeemed target rounds lp answer =
    ap
      (λ o. o >>= λ amount. elim (ltb amount target) [
        | true ↦ add_128 lp 1 >>= λ next. raise_lp_amount redeemed target rounds next
        | false ↦ ok lp
      ])
      answer

raises_once :
    (redeemed : ℕ → Result ℕ) (target rounds : ℕ) {lp amount : ℕ}
    → redeemed lp ≡ ok amount
    → ltb amount target ≡ true
    → lp + 1 < 2 ^ 128
    → raise_lp_amount redeemed target (suc rounds) lp
      ≡ raise_lp_amount redeemed target rounds (lp + 1)
raises_once redeemed target rounds {lp = lp} answer short fits =
    one_round redeemed target rounds lp answer ∙ (rw (short, next_fits lp fits) refl)

-- Raising an amount of LP tokens from an estimate ends, if some Uint128 from the estimate on redeems
-- enough and there are more rounds than numbers up to it, and finds the least amount that does.
pub raise_lp_amount-LeastEnough :
    (redeemed : ℕ → Result ℕ) (amount : ℕ → ℕ) (target rounds estimate enough : ℕ)
    → ((x : ℕ) → x ≤ enough → redeemed x ≡ ok (amount x))
    → target ≤ amount enough
    → estimate ≤ enough
    → enough < 2 ^ 128
    → enough < estimate + rounds
    → (r : ℕ) × (raise_lp_amount redeemed target rounds estimate ≡ ok r)
      × LeastEnough amount target estimate r
unfolding raise_lp_amount
raise_lp_amount-LeastEnough redeemed amount target zero estimate enough answers reaches le small
      fuel =
    absurd (omega arith)
raise_lp_amount-LeastEnough redeemed amount target (suc rounds) estimate enough answers reaches le
      small fuel =
    elim (Bool-cases (ltb (amount estimate) target)) [
      | inr done ↦ (
        estimate,
        one_round redeemed target rounds estimate (answers estimate le) ∙ rw done refl,
        (omega arith, ltb-eq-false (amount estimate) target done, (λ x h h'. absurd (omega arith))),
      )
      | inl short ↦
          let below : estimate + 1 ≤ enough = different short in
          let (r, found, (above, is_enough, all_short)) =
            raise_lp_amount-LeastEnough redeemed amount target rounds (estimate + 1) enough answers
              reaches below small (omega arith) in
          (
            r,
            raises_once redeemed target rounds (answers estimate le) short (omega arith) ∙ found,
            (
              omega arith,
              is_enough,
              (λ x h h'. elim (Bool-cases (ltb estimate x)) [
                | inl later ↦ all_short x (let q = ltb→lt estimate x later in omega arith) h'
                | inr same ↦
                    let here : x ≡ estimate =
                      (let q = ltb-eq-false estimate x same in omega arith) in
                    rw here (ltb→lt (amount estimate) target short)
              ]),
            ),
          )
    ]
  where
    different : ltb (amount estimate) target ≡ true → estimate + 1 ≤ enough
    different short = elim (Bool-cases (ltb estimate enough)) [
      | inl less ↦ (let q = ltb→lt estimate enough less in omega arith)
      | inr same ↦
          let here : estimate ≡ enough =
            (let q = ltb-eq-false estimate enough same in omega arith) in
          absurd (
            let q = ltb→lt (amount estimate) target short in
            let q' : target ≤ amount estimate = rw here reaches in omega arith)
    ]
