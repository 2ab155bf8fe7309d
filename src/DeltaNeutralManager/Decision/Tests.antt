-- ===== src/DeltaNeutralManager/Decision/Tests.antt =====
-- What the tests of the rebalance query say, taken or not.
use position_managers.Prelude.{
  ℕ, ◌+◌, ◌≤◌, ◌≡◌, ◌≢◌, refl, sym, ap, ◌∙◌, ◌⊎◌, inl, inr, Bool, true, false, not, ◌&&◌, ◌||◌,
  Option, none, some, unwrap_or, ltb, ltb-eq-false, ◌==◌, if◌then◌else◌, arith,
}
use position_managers.Cosmwasm.{
  Result, ok, err, panic, is_ok, unwrap, chain, ok-injective, add_128, add_128-eq,
}
use position_managers.DeltaNeutralManager.State.{Context}
use position_managers.DeltaNeutralManager.Rebalance.{
  PositionState, DetailedPositionInfo, CdpResponse, Mirror, rate_of, is_some, ShouldCall,
  is_liquidated, is_pending_unlock, difference, liquid_uusd,
}
use position_managers.DeltaNeutralManager.Decision.{IsLocked}

-- An early return that asks for a call was not taken.
pub passed {ℓ} :
    {C : Type ℓ} (b : Bool) (early : ShouldCall) (rest : Result ShouldCall) {a : ShouldCall}
    → a.should_call ≡ false
    → early.should_call ≡ true
    → (if b then ok early else rest) ≡ ok a
    → (b ≡ false → rest ≡ ok a → C)
    → C
passed true early rest alone calls e k = absurd (
    let same = ap (λ (x : ShouldCall). x.should_call) (ok-injective e) in
    let impossible : true ≡ false = sym calls ∙ same ∙ alone in cc)
passed false early rest alone calls e k = k refl e

pub unwrap-eq-ok {ℓ} : {A : Type ℓ} (o : Option A) {a : A} → unwrap o ≡ ok a → o ≡ some a
unwrap-eq-ok none e = cc
unwrap-eq-ok (some a) e = cc

pub is_some-eq-false {ℓ} : {A : Type ℓ} (o : Option A) → is_some o ≡ false → o ≡ none
is_some-eq-false none e = refl
is_some-eq-false (some a) e = cc

pub is_some-eq-true {ℓ} : {A : Type ℓ} (o : Option A) → is_some o ≡ true → (a : A) × (o ≡ some a)
is_some-eq-true none e = cc
is_some-eq-true (some a) e = (a, refl)

pub not-is_some {ℓ} : {A : Type ℓ} (o : Option A) → not (is_some o) ≡ false → (a : A) × (o ≡ some a)
not-is_some none e = cc
not-is_some (some a) e = (a, refl)

pub rate_of-eq-none : (r : Result ℕ) → not (is_some (rate_of r)) ≡ true → (price : ℕ) → r ≢ ok price
rate_of-eq-none (ok rate) e price same = cc
rate_of-eq-none (err x) e price same = cc
rate_of-eq-none panic e price same = cc

is_ok-eq-true {ℓ} : {A : Type ℓ} (r : Result A) → not (is_ok r) ≡ false → (a : A) × (r ≡ ok a)
is_ok-eq-true (ok a) e = (a, refl)
is_ok-eq-true (err x) e = cc
is_ok-eq-true panic e = cc

pub is_liquidated-eq-false :
    (m : Mirror) (context : Context) (o : Option ℕ) (cdp_idx : ℕ)
    → is_liquidated m context o ≡ false
    → o ≡ some cdp_idx
    → (cdp : CdpResponse) × (m.query_cdp context.mirror_mint_addr cdp_idx ≡ ok cdp)
is_liquidated-eq-false m context none cdp_idx e same = cc
is_liquidated-eq-false m context (some i) cdp_idx e same =
    let index : i ≡ cdp_idx = cc in rw (sym index) (is_ok-eq-true _ e)

pub or-eq-false : (a b : Bool) → (a || b) ≡ false → (a ≡ false) × (b ≡ false)
or-eq-false true b e = cc
or-eq-false false b e = (refl, e)

pub unwrap_or-eq-false : (o : Option Bool) → unwrap_or o false ≡ false → o ≢ some true
unwrap_or-eq-false none e same = cc
unwrap_or-eq-false (some b) e same = cc

is_pending_unlock-IsLocked :
    (detailed : DetailedPositionInfo) → is_pending_unlock detailed ≡ true → IsLocked detailed
is_pending_unlock-IsLocked detailed e =
    locked detailed.unclaimed_short_proceeds_uusd_amount
      detailed.claimable_short_proceeds_uusd_amount e
  where
    locked : (a b : ℕ) → (not (a == 0) && (b == 0)) ≡ true → (a ≢ 0) × (b ≡ 0)
    locked a b e = ground arith

within_or : (a b : ℕ) (p : Bool) → (ltb a b && not p) ≡ false → (b ≤ a) ⊎ (p ≡ true)
within_or a b true e = inr refl
within_or a b false e = inl (ltb-eq-false a b (undo (ltb a b) e))
  where
    undo : (x : Bool) → (x && true) ≡ false → x ≡ false
    undo true e = cc
    undo false e = refl

pub within-IsLocked :
    (a b : ℕ) (detailed : DetailedPositionInfo)
    → (ltb a b && not (is_pending_unlock detailed)) ≡ false
    → (b ≤ a) ⊎ IsLocked detailed
within-IsLocked a b detailed e = elim (within_or a b (is_pending_unlock detailed) e) [
  | inl le ↦ inl le
  | inr pending ↦ inr (is_pending_unlock-IsLocked detailed pending)
]

pub difference-le : (a b c : ℕ) → difference a b ≤ c → (a ≤ b + c) × (b ≤ a + c)
difference-le a b c h = ground arith

pub liquid_uusd-eq :
    (detailed : DetailedPositionInfo) (state : PositionState) (liquid : ℕ)
    → liquid_uusd detailed state ≡ ok liquid
    → liquid
      ≡ state.uusd_balance + detailed.claimable_mir_reward_uusd_value
        + detailed.claimable_spec_reward_uusd_value + detailed.claimable_short_proceeds_uusd_amount
liquid_uusd-eq detailed state liquid e =
    chain (add_128 state.uusd_balance detailed.claimable_mir_reward_uusd_value) _ e λ a e₁ e.
      chain (add_128 a detailed.claimable_spec_reward_uusd_value) _ e λ b e₂ e.
        let h₁ = add_128-eq state.uusd_balance detailed.claimable_mir_reward_uusd_value a e₁ in
        let h₂ = add_128-eq a detailed.claimable_spec_reward_uusd_value b e₂ in
        let h₃ = add_128-eq b detailed.claimable_short_proceeds_uusd_amount liquid e in omega arith
