-- ===== src/DeltaNeutralPosition/Lifecycle/Handlers.antt =====
-- The changes that rebalancing makes to the storage, and the dispatch of all messages, of
-- contracts/delta_neutral_position/src/contract.rs.
use position_managers.Prelude.{
  ℕ, ◌≡◌, refl, sym, ap, inl, inr, Bool, true, false, not, ◌||◌, Option, none, some, List,
  unwrap_or, Bool-cases,
}
use position_managers.Cosmwasm.{
  Addr, ok, chain, guarded-elim, ok-injective, load-eq-ok, Env, load, is_ok,
}
use position_managers.Message.{CosmosMsg, Response}
use position_managers.DeltaNeutralManager.State.{Context}
use position_managers.DeltaNeutralManager.Rebalance.{
  is_some, get_mirror_asset_fresh_oracle_uusd_rate,
}
use position_managers.Chain.{Chain}
use position_managers.DeltaNeutralPosition.State.{State}
use position_managers.DeltaNeutralPosition.Open.{delta_neutral_invest}
use position_managers.DeltaNeutralPosition.Reinvest.{
  reinvest_active, delayed_open, rebalance_active, rebalance_inactive, rebalance_open,
  rebalance_and_reinvest,
}
use position_managers.DeltaNeutralPosition.Contract.{
  ExecuteMsg, open_position_msg, close_position_msg, rebalance_and_reinvest_msg, internal_msg, run,
  execute,
}
use position_managers.DeltaNeutralPosition.Lifecycle.Changes.{
  Change, kept, preempts, stored, keep_state-Change, run_internal-Change, open_position-Change,
}
use position_managers.Cosmwasm.{MessageInfo, branch}
use position_managers.DeltaNeutralPosition.Contract.{is_authorized}
use position_managers.DeltaNeutralPosition.Util.{should_close_cdp}
use position_managers.Prelude.{Option-cases}
use position_managers.Anchor.{get_anchor_ust_balance_with_uusd_value}
use position_managers.DeltaNeutralPosition.Rebalance.{achieve_delta_neutral}
use position_managers.DeltaNeutralManager.Rebalance.{get_mirror_cdp_response}

reinvest_active-Change :
    (c : Chain) (s : State) (env : Env) (context : Context) (messages : List CosmosMsg)
    (mirror_asset : Addr) (rate : ℕ) (r : Response) (t : State)
    → is_some s.position_close_info ≡ false
    → is_some s.cdp_idx ≡ true
    → reinvest_active c s env context messages mirror_asset rate ≡ ok (r, t)
    → Change s t
unfolding reinvest_active
reinvest_active-Change c s env context messages mirror_asset rate r t still_open has_cdp e =
    chain (should_close_cdp c s context.mirror_mint_addr mirror_asset) _ e λ close e₁ e.
      elim (Bool-cases close) [
        | inl given_up ↦
            rw (sym (ap stored (ok-injective (rw given_up at e))))
              (preempts still_open (inr has_cdp))
        | inr going_on ↦ rw (sym (ap stored (ok-injective (rw going_on at e)))) kept
      ]

delayed_open-Change :
    (c : Chain) (s : State) (env : Env) (context : Context) (mirror_asset : Addr) (rate : ℕ)
    (r : Response) (t : State)
    → is_some s.position_close_info ≡ false
    → is_some s.mirror_asset_cw20_addr ≡ true
    → delayed_open c s env context mirror_asset rate ≡ ok (r, t)
    → Change s t
unfolding delayed_open
delayed_open-Change c s env context mirror_asset rate r t still_open has_asset e =
    chain (should_close_cdp c s context.mirror_mint_addr mirror_asset) _ e λ close e₁ e.
      branch close _ _ e
        (λ given_up e. rw (sym (ap stored (ok-injective e))) (preempts still_open (inl has_asset)))
        (λ going_on e. chain (load s.target_collateral_ratio_range) _ e λ range e₁ e.
          chain
            (get_anchor_ust_balance_with_uusd_value c.anchor env context.anchor_market_addr
              context.anchor_ust_cw20_addr)
            _ e
            λ p e₁ e.
              chain (delta_neutral_invest c env context p.1 range mirror_asset rate none) _ e
                λ messages e₁ e. rw (sym (ap stored (ok-injective e))) kept)

rebalance_open-Change :
    (c : Chain) (s : State) (env : Env) (context : Context) (cdp_idx : Option ℕ) (r : Response)
    (t : State)
    → s.cdp_idx ≡ cdp_idx
    → is_some s.position_close_info ≡ false
    → rebalance_open c s env context cdp_idx ≡ ok (r, t)
    → Change s t
unfolding rebalance_open rebalance_active rebalance_inactive
rebalance_open-Change c s env context (some cdp_idx) r t idx still_open e =
    let has_cdp : is_some s.cdp_idx ≡ true = ap (λ (o : Option ℕ). is_some o) idx in
    chain (achieve_delta_neutral c s env context) _ e λ messages e₁ e.
      elim (Bool-cases (not (is_ok (get_mirror_cdp_response c.mirror context cdp_idx)))) [
        | inl gone ↦
            rw (sym (ap stored (ok-injective (rw gone at e)))) (preempts still_open (inr has_cdp))
        | inr there ↦ chain (load s.mirror_asset_cw20_addr) _ (rw there at e) λ mirror_asset e₁ e.
            elim (Option-cases
              (get_mirror_asset_fresh_oracle_uusd_rate c.mirror context mirror_asset)) [
                | inl stale ↦ rw (sym (ap stored (ok-injective (rw stale at e)))) kept
                | inr (rate, fresh) ↦
                    reinvest_active-Change c s env context messages mirror_asset rate r t still_open
                      has_cdp (rw fresh at e)
              ]
      ]
rebalance_open-Change c s env context none r t idx still_open e =
    chain (load s.mirror_asset_cw20_addr) _ e λ mirror_asset e₁ e.
      elim (Option-cases (get_mirror_asset_fresh_oracle_uusd_rate c.mirror context mirror_asset)) [
        | inl stale ↦ rw (sym (ap stored (ok-injective (rw stale at e)))) kept
        | inr (rate, fresh) ↦
            delayed_open-Change c s env context mirror_asset rate r t still_open
              (ap (λ (o : Option Addr). is_some o) (load-eq-ok s.mirror_asset_cw20_addr e₁))
              (rw fresh at e)
      ]

or-eq-false : (a b : Bool) → (a || b) ≡ false → (a ≡ false) × (b ≡ false)
or-eq-false true b e = cc
or-eq-false false b e = (refl, e)

run-Change :
    (c : Chain) (s : State) (env : Env) (context : Context) (msg : ExecuteMsg) (r : Response)
    (t : State)
    → run c s env context msg ≡ ok (r, t)
    → Change s t
unfolding run rebalance_and_reinvest
run-Change c s env context (open_position_msg params) r t e =
    open_position-Change c s env context params r t e
run-Change c s env context (close_position_msg recipient) r t e = keep_state-Change s _ r t e
run-Change c s env context rebalance_and_reinvest_msg r t e =
    elim (Bool-cases (is_some s.position_close_info || unwrap_or s.cdp_preemptively_closed false)) [
      | inl over ↦ rw (sym (ap stored (ok-injective (rw over at e)))) kept
      | inr still_open ↦
          rebalance_open-Change c s env context s.cdp_idx r t refl
            (or-eq-false (is_some s.position_close_info) (unwrap_or s.cdp_preemptively_closed false)
              still_open).0
            (rw still_open at e)
    ]
run-Change c s env context (internal_msg m) r t e = run_internal-Change c s env context m r t e

pub execute-Change :
    (c : Chain) (s : State) (env : Env) (info : MessageInfo) (msg : ExecuteMsg) (r : Response)
    (t : State)
    → execute c s env info msg ≡ ok (r, t)
    → Change s t
unfolding execute
execute-Change c s env info msg r t e = chain (load s.manager) _ e λ manager e₁ e.
    chain (c.manager_context manager) _ e λ context e₁ e.
      guarded-elim (not (is_authorized env info context manager msg)) _ _ e
        λ allowed e. run-Change c s env context msg r t e
