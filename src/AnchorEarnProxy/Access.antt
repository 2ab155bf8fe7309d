-- ===== src/AnchorEarnProxy/Access.antt =====
-- Who may change what of the Anchor Earn proxy's storage.
use position_managers.Prelude.{ℕ, ◌≡◌, refl, sym, ap, some, List, str_eq, not, eq_iff, false}
use position_managers.Cosmwasm.{
  ok, load, chain, guarded-elim, ok-injective, load-eq-ok, not-eq-false, MessageInfo, Env,
}
use position_managers.Common.{
  Asset, Position, get_position_key, PositionKey, key_eq, Action, open_position, close_position,
  increase_position, decrease_position,
}
use position_managers.Message.{Response}
use position_managers.Host.{Host}
use position_managers.Anchor.{Anchor, BignumLaws}
use position_managers.AnchorEarnProxy.{
  AdminConfig, State, act, set_balance, decimal_one, validated_or, update_admin_config, ExecuteMsg,
  perform_action_msg, update_admin_config_msg, execute,
}
use position_managers.AnchorEarnProxy.Balances.{deposit-Deposited, withdraw-Withdrawn}

-- Nothing but the balance of one position changes.
pub record OnlyBalance (position : Position) (s t : State) : Type 0 where
  pub same_admin_config : t.admin_config ≡ s.admin_config
  pub same_environment : t.environment ≡ s.environment
  pub same_others :
      (key : PositionKey)
      → key_eq (get_position_key position) key ≡ false
      → t.position_to_anchor_ust_amount key ≡ s.position_to_anchor_ust_amount key

set_balance-OnlyBalance :
    (s t : State) (position : Position) (amount : ℕ)
    → t ≡ set_balance s position amount
    → OnlyBalance position s t
set_balance-OnlyBalance s t position amount e = rw e (record {
  same_admin_config = refl;
  same_environment = refl;
  same_others = λ key other. rw other refl;
})

act-OnlyBalance :
    (h : Host) (k : Anchor) (s : State) (env : Env) (info : MessageInfo) (config : AdminConfig)
    (position : Position) (action : Action) (assets : List Asset) (r : Response) (t : State)
    → BignumLaws k
    → act h k s env info config position action assets ≡ ok (r, t)
    → OnlyBalance position s t
unfolding act
act-OnlyBalance h k s env info config position (open_position payload) assets r t laws e =
    set_balance-OnlyBalance s t position _
      (deposit-Deposited h k s env info position assets r t laws e).credited
act-OnlyBalance h k s env info config position (increase_position payload) assets r t laws e =
    set_balance-OnlyBalance s t position _
      (deposit-Deposited h k s env info position assets r t laws e).credited
act-OnlyBalance h k s env info config position (decrease_position p recipient) assets r t laws e =
    set_balance-OnlyBalance s t position _
      (withdraw-Withdrawn h k s env config position p recipient r t laws e).debited
act-OnlyBalance h k s env info config position (close_position recipient) assets r t laws e =
    set_balance-OnlyBalance s t position _
      (withdraw-Withdrawn h k s env config position decimal_one recipient r t laws e).debited

-- What a message that succeeds may have changed, by whom it was sent.
abbrev pub Permitted : State → MessageInfo → ExecuteMsg → State → Type 0
Permitted s info (perform_action_msg position action assets) t =
    (config : AdminConfig) × (s.admin_config ≡ some config)
    × (config.terra_manager ≡ info.sender)
    × OnlyBalance position s t
Permitted s info (update_admin_config_msg admin_addr terra_manager_addr) t =
    (config : AdminConfig) × (s.admin_config ≡ some config)
    × (config.admin ≡ info.sender)
    × (t.environment ≡ s.environment)
    × (t.position_to_anchor_ust_amount ≡ s.position_to_anchor_ust_amount)

authorised : (a b : _) → not (str_eq a b) ≡ false → b ≡ a
authorised a b e = sym ((eq_iff a b).0 (not-eq-false _ e))

-- An action on a position succeeds only for the Terra manager and changes nothing but that
-- position's balance; the configuration is changed only by the admin, and with it no balance. The
-- bignum arithmetic is as documented.
pub execute-Permitted :
    (h : Host) (k : Anchor) (s : State) (env : Env) (info : MessageInfo) (msg : ExecuteMsg)
    (r : Response) (t : State)
    → BignumLaws k
    → execute h k s env info msg ≡ ok (r, t)
    → Permitted s info msg t
unfolding execute update_admin_config
execute-Permitted h k s env info (perform_action_msg position action assets) r t laws e =
    chain (load s.admin_config) _ e λ config e₁ e₂.
      guarded-elim (not (str_eq info.sender config.terra_manager)) _ _ e₂ λ sender e₃. (
        config,
        load-eq-ok _ e₁,
        authorised _ _ sender,
        act-OnlyBalance h k s env info config position action assets r t laws e₃,
      )
execute-Permitted h k s env info (update_admin_config_msg admin_addr terra_manager_addr) r t laws
      e =
    chain (load s.admin_config) _ e λ config e₁ e₂.
      guarded-elim (not (str_eq info.sender config.admin)) _ _ e₂ λ sender e₃.
        chain (validated_or h admin_addr config.admin) _ e₃ λ admin e₄ e₅.
          chain (validated_or h terra_manager_addr config.terra_manager) _ e₅ λ manager e₆ e₇.
            let result = ap (λ (p : Response × State). p.1) (ok-injective e₇) in
            (
              config,
              load-eq-ok _ e₁,
              authorised _ _ sender,
              sym (ap (λ (u : State). u.environment) result),
              sym (ap (λ (u : State). u.position_to_anchor_ust_amount) result),
            )
