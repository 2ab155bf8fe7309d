-- ===== src/DeltaNeutralPosition/Lifecycle/Changes.antt =====
-- The changes that the handlers of contracts/delta_neutral_position/src/contract.rs make to the
-- storage.
use position_managers.Prelude.{
  ℕ, ◌≡◌, sym, ap, ◌⊎◌, inl, inr, true, false, Option, none, some, List, unwrap_or, ltb, ◌==◌,
  Bool-cases,
}
use position_managers.Cosmwasm.{
  Addr, Result, ok, chain, guarded-elim, ok-injective, Env, load, add_128, sub_128,
}
use position_managers.Common.{Recipient}
use position_managers.Message.{CosmosMsg, DeltaNeutralParams, Response, InternalExecuteMsg}
use position_managers.Message as Message
use position_managers.DeltaNeutralManager.State.{Context, FeeCollectionConfig}
use position_managers.DeltaNeutralManager.Rebalance.{
  PositionActionInfo, TargetCollateralRatioRange, is_some,
}
use position_managers.Chain.{Chain}
use position_managers.DeltaNeutralPosition.State.{State}
use position_managers.DeltaNeutralPosition.Math.{times}
use position_managers.AnchorEarnProxy.{decimal_one}
use position_managers.DeltaNeutralPosition.Open.{delta_neutral_invest}
use position_managers.DeltaNeutralPosition.Util.{
  get_cdp_uusd_lock_info_result, get_fee_collection_config_from_manager, get_position_state,
  get_uusd_balance,
}
use position_managers.DeltaNeutralPosition.Safety.{
  raised_range, adjust_ratio, achieve_safe_collateral_ratios,
}
use position_managers.DeltaNeutralPosition.Closing.{
  with_locked, gain_over, close_cdp, record_close, send_uusd_to_recipient, collect_fee,
  close_cdp_and_collect_fees, close_cdp_and_disburse_uusd, close_cdp_and_deposit_to_anchor_earn,
}
use position_managers.DeltaNeutralPosition.Opening.{
  opened, open_on_market, open_off_market, open_with_rate, open_position,
}
use position_managers.DeltaNeutralPosition.Reinvest.{preemptively_closed}
use position_managers.DeltaNeutralPosition.Contract.{keep_state, run_internal}

-- What one message may do to the storage.
pub data Change (s : State) : State → Type 0 where
  kept : Change s s
  opens :
      (env : Env) (uusd_balance : ℕ) (mirror_asset : Addr) (range : TargetCollateralRatioRange)
      → is_some s.position_open_info ≡ false
      → Change s (opened s env uusd_balance mirror_asset range)
  opens_with_cdp :
      (env : Env) (uusd_balance : ℕ) (mirror_asset : Addr) (range : TargetCollateralRatioRange)
      (cdp_idx : ℕ)
      → is_some s.position_open_info ≡ false
      → Change s (record (opened s env uusd_balance mirror_asset range) { cdp_idx = some cdp_idx })
  preempts :
      is_some s.position_close_info ≡ false
      → (is_some s.mirror_asset_cw20_addr ≡ true) ⊎ (is_some s.cdp_idx ≡ true)
      → Change s (preemptively_closed s)
  closes : (info : PositionActionInfo) → Change s (record s { position_close_info = some info })
  retargets :
      (range : TargetCollateralRatioRange)
      → Change s (record s { target_collateral_ratio_range = some range })
  revalues :
      (value : ℕ) → Change s (record s { last_fee_collection_position_uusd_value = some value })

-- The storage that a result goes with.
abbrev pub stored {ℓ} : {A : Type ℓ} → A × State → State
stored p = p.1

pub keep_state-Change :
    (s : State) (m : Result Response) (r : Response) (t : State)
    → keep_state s m ≡ ok (r, t)
    → Change s t
keep_state-Change s m r t e = chain m _ e λ response e₁ e₂. rw (ap stored (ok-injective e₂)) kept

achieve_safe_collateral_ratios-Change :
    (c : Chain) (s : State) (env : Env) (context : Context) (r : Response) (t : State)
    → achieve_safe_collateral_ratios c s env context ≡ ok (r, t)
    → Change s t
unfolding achieve_safe_collateral_ratios
achieve_safe_collateral_ratios-Change c s env context r t e =
    chain (get_position_state c s env context) _ e λ state e₁ e.
      chain (times c state.mirror_asset_short_amount state.mirror_asset_oracle_price) _ e
        λ debt e₁ e. chain (c.from_ratio state.collateral_uusd_value debt) _ e λ ratio e₁ e.
          chain (load s.target_collateral_ratio_range) _ e λ range e₁ e.
            chain (load s.mirror_asset_cw20_addr) _ e λ mirror_asset e₁ e.
              chain (c.mirror.query_asset_config context.mirror_mint_addr mirror_asset) _ e
                λ config e₁ e.
                  chain (add_128 config.min_collateral_ratio context.collateral_ratio_safety_margin)
                    _ e
                    λ required e₁ e. chain (raised_range range required) _ e λ raised e₁ e.
                      chain (adjust_ratio c s context state mirror_asset raised ratio) _ e
                        λ messages e₁ e. rw (sym (ap stored (ok-injective e))) (retargets raised)

collect_fee-Change :
    (s : State) (config : FeeCollectionConfig) (value fee : ℕ) (messages : List CosmosMsg)
    (messages' : List CosmosMsg) (t : State)
    → collect_fee s config value fee messages ≡ ok (messages', t)
    → Change s t
unfolding collect_fee
collect_fee-Change s config value fee messages messages' t e = elim (Bool-cases (fee == 0)) [
  | inl none_due ↦ rw (sym (ap stored (ok-injective (rw none_due at e)))) kept
  | inr due ↦
      chain (sub_128 value fee) _ (rw due at e)
        λ left e₁ e₂. rw (sym (ap stored (ok-injective e₂))) (revalues left)
]

close_cdp_and_collect_fees-Change :
    (c : Chain) (s : State) (env : Env) (context : Context) (messages : List CosmosMsg) (t : State)
    → close_cdp_and_collect_fees c s env context ≡ ok (messages, t)
    → Change s t
unfolding close_cdp_and_collect_fees
close_cdp_and_collect_fees-Change c s env context messages t e =
    chain (get_position_state c s env context) _ e λ state e₁ e.
      chain (add_128 state.collateral_uusd_value state.uusd_balance) _ e λ sum e₁ e.
        chain (add_128 sum state.uusd_long_farm) _ e λ unlocked e₁ e.
          chain (with_locked (get_cdp_uusd_lock_info_result c s context) unlocked) _ e λ value e₁ e.
            chain (load s.last_fee_collection_position_uusd_value) _ e λ last e₁ e.
              chain (get_fee_collection_config_from_manager c s) _ e λ config e₁ e.
                chain (times c (gain_over last value) config.performance_rate) _ e λ fee e₁ e.
                  chain (close_cdp c s env context state) _ e
                    λ closing e₁ e. collect_fee-Change s config value fee closing messages t e

close_cdp_and_disburse_uusd-Change :
    (c : Chain) (s : State) (env : Env) (context : Context) (recipient : Recipient) (r : Response)
    (t : State)
    → close_cdp_and_disburse_uusd c s env context recipient ≡ ok (r, t)
    → Change s t
unfolding close_cdp_and_disburse_uusd
close_cdp_and_disburse_uusd-Change c s env context recipient r t e =
    chain (close_cdp_and_collect_fees c s env context) _ e λ p e₁ e₂.
      rw (sym (ap stored (ok-injective e₂)))
        (close_cdp_and_collect_fees-Change c s env context p.0 p.1 e₁)

close_cdp_and_deposit-Change :
    (c : Chain) (s : State) (env : Env) (context : Context) (r : Response) (t : State)
    → close_cdp_and_deposit_to_anchor_earn c s env context ≡ ok (r, t)
    → Change s t
unfolding close_cdp_and_deposit_to_anchor_earn
close_cdp_and_deposit-Change c s env context r t e =
    chain (close_cdp_and_collect_fees c s env context) _ e λ p e₁ e₂.
      rw (sym (ap stored (ok-injective e₂)))
        (close_cdp_and_collect_fees-Change c s env context p.0 p.1 e₁)

record_close-Change :
    (s : State) (env : Env) (proportion amount : ℕ)
    → Change s (record_close s env proportion amount)
unfolding record_close
record_close-Change s env proportion amount = elim (Bool-cases (proportion == decimal_one)) [
  | inl all ↦ rw all (closes _)
  | inr part ↦ rw part kept
]

send_uusd-Change :
    (c : Chain) (s : State) (env : Env) (proportion : ℕ) (recipient : Recipient) (r : Response)
    (t : State)
    → send_uusd_to_recipient c s env proportion recipient ≡ ok (r, t)
    → Change s t
unfolding send_uusd_to_recipient
send_uusd-Change c s env proportion recipient r t e =
    chain (get_uusd_balance c env) _ e λ balance e₁ e.
      chain (times c balance proportion) _ e λ amount e₁ e. elim (Bool-cases (amount == 0)) [
        | inl nothing ↦
            rw (sym (ap stored (ok-injective (rw nothing at e))))
              (record_close-Change s env proportion amount)
        | inr some_amount ↦ chain (load s.manager) _ (rw some_amount at e) λ manager e₁ e.
            chain (c.manager_admin_config manager) _ e λ config e₁ e.
              rw (sym (ap stored (ok-injective e))) (record_close-Change s env proportion amount)
      ]

pub run_internal-Change :
    (c : Chain) (s : State) (env : Env) (context : Context) (m : InternalExecuteMsg) (r : Response)
    (t : State)
    → run_internal c s env context m ≡ ok (r, t)
    → Change s t
unfolding run_internal
run_internal-Change c s env context Message.achieve_safe_collateral_ratio r t e =
    achieve_safe_collateral_ratios-Change c s env context r t e
run_internal-Change c s env context (Message.close_cdp_and_disburse recipient) r t e =
    close_cdp_and_disburse_uusd-Change c s env context recipient r t e
run_internal-Change c s env context Message.close_cdp_and_deposit r t e =
    close_cdp_and_deposit-Change c s env context r t e
run_internal-Change c s env context Message.deposit_uusd_balance r t e = keep_state-Change s _ r t e
run_internal-Change c s env context (Message.withdraw_collateral_and_redeem proportion) r t e =
    keep_state-Change s _ r t e
run_internal-Change c s env context (Message.send_uusd proportion recipient) r t e =
    send_uusd-Change c s env proportion recipient r t e
run_internal-Change c s env context Message.pair_uusd_with_mirror_asset r t e =
    keep_state-Change s _ r t e
run_internal-Change c s env context (Message.delta_neutral_reinvest rate) r t e =
    keep_state-Change s _ r t e
run_internal-Change c s env context Message.sanity_check r t e = keep_state-Change s _ r t e

open_with_rate-Change :
    (c : Chain) (s : State) (env : Env) (context : Context) (params : DeltaNeutralParams)
    (balance : ℕ) (range : TargetCollateralRatioRange) (mirror_asset : Addr) (rate : Option ℕ)
    (r : Response) (t : State)
    → is_some s.position_open_info ≡ false
    → open_with_rate c
        (opened s env balance mirror_asset range)
        env
        context
        params
        balance
        range
        mirror_asset
        rate
      ≡ ok (r, t)
    → Change s t
unfolding open_with_rate open_on_market open_off_market
open_with_rate-Change c s env context params balance range mirror_asset (some rate) r t fresh e =
    chain (c.next_position_idx context.mirror_mint_addr) _ e λ idx e₁ e.
      chain (delta_neutral_invest c env context balance range mirror_asset rate none) _ e
        λ messages e₁ e.
          rw (sym (ap stored (ok-injective e)))
            (opens_with_cdp env balance mirror_asset range idx fresh)
open_with_rate-Change c s env context params balance range mirror_asset none r t fresh e =
    elim (Bool-cases (unwrap_or params.allow_off_market_position_open false)) [
      | inl allowed ↦
          chain (get_fee_collection_config_from_manager c (opened s env balance mirror_asset range))
            _ (rw allowed at e)
            λ config e₁ e.
              chain (sub_128 balance config.off_market_position_open_service_fee_uusd) _ e
                λ deposit e₁ e.
                  rw (sym (ap stored (ok-injective e))) (opens env balance mirror_asset range fresh)
      | inr refused ↦ absurd (let h = rw refused at e in cc)
    ]

pub open_position-Change :
    (c : Chain) (s : State) (env : Env) (context : Context) (params : DeltaNeutralParams)
    (r : Response) (t : State)
    → open_position c s env context params ≡ ok (r, t)
    → Change s t
unfolding open_position
open_position-Change c s env context params r t e =
    guarded-elim (is_some s.position_open_info) _ _ e λ fresh e.
      chain (get_uusd_balance c env) _ e λ balance e₁ e.
        guarded-elim (ltb balance context.min_open_uusd_amount) _ _ e λ enough e.
          chain (c.host.addr_validate params.mirror_asset_cw20_addr) _ e λ mirror_asset e₁ e.
            open_with_rate-Change c s env context params balance _ mirror_asset _ r t fresh e
