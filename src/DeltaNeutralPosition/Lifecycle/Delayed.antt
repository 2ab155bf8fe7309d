-- ===== src/DeltaNeutralPosition/Lifecycle/Delayed.antt =====
-- The delayed set-up of a position that was opened off the market, in
-- contracts/delta_neutral_position/src/contract.rs.
use position_managers.Prelude.{
  ℕ, ◌≡◌, ◌≢◌, sym, ap, ◌⊎◌, inl, inr, ◌||◌, false, Option, none, some, List, [], ◌∷◌, ◌++◌,
  unwrap_or, Option-cases,
}
use position_managers.Cosmwasm.{Addr, ok, chain, branch, ok-injective, load, Env}
use position_managers.Message.{CosmosMsg, sanity_check, Response, plain_messages}
use position_managers.Anchor.{get_anchor_ust_balance_with_uusd_value}
use position_managers.DeltaNeutralManager.State.{Context}
use position_managers.DeltaNeutralManager.Rebalance.{
  is_some, get_mirror_asset_fresh_oracle_uusd_rate,
}
use position_managers.Chain.{Chain}
use position_managers.DeltaNeutralPosition.State.{State}
use position_managers.DeltaNeutralPosition.Util.{should_close_cdp}
use position_managers.DeltaNeutralPosition.Open.{delta_neutral_invest}
use position_managers.DeltaNeutralPosition.Closing.{create_internal_execute_message, redeem_all}
use position_managers.DeltaNeutralPosition.Opening.{open_position_sanity_check}
use position_managers.DeltaNeutralPosition.Reinvest.{
  delayed_open, rebalance_inactive, rebalance_open, rebalance_and_reinvest,
}

-- Without a stored debt position the check of an opened position fails.
sanity_check_fails :
    (c : Chain) (s : State) (env : Env) (context : Context) (r : Response)
    → s.cdp_idx ≡ none
    → open_position_sanity_check c s env context ≢ ok r
unfolding open_position_sanity_check
sanity_check_fails c s env context r missing e =
    chain (load s.mirror_asset_cw20_addr) _ e λ mirror_asset e₁ e.
      chain (c.anchor.query_token_balance mirror_asset env.contract_address) _ e λ balance e₂ e.
        chain (load s.cdp_idx) _ e λ cdp_idx e₃ e. absurd (let h = rw missing at e₃ in cc)

-- Messages that end in the check, on a storage where the check fails on every chain.
pub EndsInFailure : Env → Response → State → Type 0
EndsInFailure env r t =
    ((before : List CosmosMsg) × (r
        ≡ plain_messages (before ++ (create_internal_execute_message env sanity_check ∷ []))))
    × ((c : Chain) (env' : Env) (context : Context) (r' : Response)
        → open_position_sanity_check c t env' context ≢ ok r')

delayed_open-EndsInFailure :
    (c : Chain) (s : State) (env : Env) (context : Context) (mirror_asset : Addr) (rate : ℕ)
    (r : Response) (t : State)
    → s.cdp_idx ≡ none
    → delayed_open c s env context mirror_asset rate ≡ ok (r, t)
    → (r ≡ []) ⊎ EndsInFailure env r t
unfolding delayed_open EndsInFailure
delayed_open-EndsInFailure c s env context mirror_asset rate r t missing e =
    chain (should_close_cdp c s context.mirror_mint_addr mirror_asset) _ e λ close e₁ e.
      branch close _ _ e
        (λ given_up e. inl (sym (ap (λ (p : Response × State). p.0) (ok-injective e))))
        (λ going_on e. chain (load s.target_collateral_ratio_range) _ e λ range e₂ e.
          chain
            (get_anchor_ust_balance_with_uusd_value c.anchor env context.anchor_market_addr
              context.anchor_ust_cw20_addr)
            _ e
            λ p e₃ e.
              chain (delta_neutral_invest c env context p.1 range mirror_asset rate none) _ e
                λ messages e₄ e. inr (
                  (
                    redeem_all context p.0 ∷ messages,
                    sym (ap (λ (p : Response × State). p.0) (ok-injective e)),
                  ),
                  λ c' env' context' r'.
                      sanity_check_fails c' t env' context' r'
                        (rw (sym (ap (λ (p : Response × State). p.1) (ok-injective e))) missing),
                ))

-- Rebalancing a position that was opened off the market either sends nothing, or sends messages
-- that end in the contract's own check of the opened position; with what is stored then, that check
-- fails on every chain and at every time, for want of a debt position.
pub rebalance_and_reinvest-EndsInFailure :
    (c : Chain) (s : State) (env : Env) (context : Context) (r : Response) (t : State)
    → s.cdp_idx ≡ none
    → rebalance_and_reinvest c s env context ≡ ok (r, t)
    → (r ≡ []) ⊎ EndsInFailure env r t
unfolding rebalance_and_reinvest rebalance_open rebalance_inactive
rebalance_and_reinvest-EndsInFailure c s env context r t missing e =
    branch (is_some s.position_close_info || unwrap_or s.cdp_preemptively_closed false) _ _ e
      (λ over e. inl (sym (ap (λ (p : Response × State). p.0) (ok-injective e))))
      (λ still_open e. set_up s.cdp_idx missing e)
  where
    set_up :
        (cdp_idx : Option ℕ)
        → cdp_idx ≡ none
        → rebalance_open c s env context cdp_idx ≡ ok (r, t)
        → (r ≡ []) ⊎ EndsInFailure env r t
    set_up (some cdp_idx) none_there e = absurd (cc)
    set_up none none_there e = chain (load s.mirror_asset_cw20_addr) _ e λ mirror_asset e₁ e.
        elim (Option-cases
          (get_mirror_asset_fresh_oracle_uusd_rate c.mirror context mirror_asset)) [
            | inl stale ↦
                inl (sym (ap (λ (p : Response × State). p.0) (ok-injective (rw stale at e))))
            | inr (rate, fresh) ↦
                delayed_open-EndsInFailure c s env context mirror_asset rate r t missing
                  (rw fresh at e)
          ]
