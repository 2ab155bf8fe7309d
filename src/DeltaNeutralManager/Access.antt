-- ===== src/DeltaNeutralManager/Access.antt =====
-- Who may change what of the delta-neutral manager's storage.
use position_managers.Prelude.{◌≡◌, refl, sym, ap, not, Option, some, List, str_eq, eq_iff}
use position_managers.Cosmwasm.{
  Result, ok, load, unwrap, chain, guarded-elim, ok-injective, load-eq-ok, not-eq-false, ◌>>=◌,
  MessageInfo, Env,
}
use position_managers.Common.{
  Asset, Position, Action, open_position, close_position, increase_position, decrease_position,
}
use position_managers.Message.{Response}
use position_managers.Host.{Host}
use position_managers.AnchorEarnProxy.{validated_or}
use position_managers.DeltaNeutralManager.State.{AdminConfig, State, Codes}
use position_managers.DeltaNeutralManager.Settings.{
  assert_admin, update_admin_config, update_fee_collection_config,
  update_position_open_mirror_asset_list, save_validated,
  add_should_preemptively_close_cdp_mirror_asset_list, update_context,
}
use position_managers.DeltaNeutralManager.Contract.{
  keep_state, act, ExecuteMsg, perform_action_msg, migrate_position_contracts_msg,
  update_admin_config_msg, update_fee_collection_config_msg,
  update_position_open_mirror_asset_list_msg,
  add_should_preemptively_close_cdp_mirror_asset_list_msg, update_context_msg,
  send_open_position_msg, execute,
}
use position_managers.DeltaNeutralManager.Opening.{open_new_position-Opened}

-- The positions' contracts, and the position whose contract is being instantiated, are untouched.
pub record SamePositions (s t : State) : Type 0 where
  pub same_contracts : t.position_to_contract_addr ≡ s.position_to_contract_addr
  pub same_tmp : t.tmp_position ≡ s.tmp_position

-- Nothing but the position that is being opened is changed.
pub record OnlyTmp (s t : State) : Type 0 where
  pub tmp : Option Position
  pub state_is : t ≡ record s { tmp_position = tmp }

abbrev pub SentByAdmin : State → MessageInfo → State → Type 0
SentByAdmin s info t =
    (config : AdminConfig) × (s.admin_config ≡ some config)
    × (config.admin ≡ info.sender)
    × SamePositions s t

-- What a message that succeeds may have changed, and who sent it.
abbrev pub Authorised : State → Env → MessageInfo → ExecuteMsg → State → Type 0
Authorised s env info (perform_action_msg position action assets) t =
    (config : AdminConfig) × (s.admin_config ≡ some config)
    × (config.terra_manager ≡ info.sender)
    × OnlyTmp s t
Authorised s env info (migrate_position_contracts_msg positions contracts) t = t ≡ s
Authorised s env info (send_open_position_msg position params amount) t =
    (info.sender ≡ env.contract_address) × (t ≡ s)
Authorised s env info (update_admin_config_msg a m c) t = SentByAdmin s info t
Authorised s env info (update_fee_collection_config_msg config) t = SentByAdmin s info t
Authorised s env info (update_position_open_mirror_asset_list_msg assets allowed) t =
    SentByAdmin s info t
Authorised s env info (add_should_preemptively_close_cdp_mirror_asset_list_msg assets) t =
    SentByAdmin s info t
Authorised s env info (update_context_msg u) t = SentByAdmin s info t

keep_state-eq-ok :
    (s : State) (m : Result Response) (r : Response) (t : State)
    → keep_state s m ≡ ok (r, t)
    → t ≡ s
unfolding keep_state
keep_state-eq-ok s m r t e =
    chain m _ e λ response e₁ e₂. sym (ap (λ (p : Response × State). p.1) (ok-injective e₂))

act-OnlyTmp :
    (h : Host) (codes : Codes) (s : State) (env : Env) (info : MessageInfo) (position : Position)
    (action : Action) (assets : List Asset) (r : Response) (t : State)
    → act h codes s env info position action assets ≡ ok (r, t)
    → OnlyTmp s t
unfolding act
act-OnlyTmp h codes s env info position (open_position payload) assets r t e =
    chain (unwrap payload) _ e λ bytes e₁ e₂.
      chain (codes.params_from_binary bytes) _ e₂ λ params e₃ e₄. record {
        tmp = some position;
        state_is = (open_new_position-Opened h s env info position params assets r t e₄).remembered;
      }
act-OnlyTmp h codes s env info position (increase_position payload) assets r t e = cc
act-OnlyTmp h codes s env info position (decrease_position p recipient) assets r t e = cc
act-OnlyTmp h codes s env info position (close_position recipient) assets r t e = record {
  tmp = s.tmp_position;
  state_is = keep_state-eq-ok s _ r t e;
}

abbrev IsAdmin : State → MessageInfo → AdminConfig → Type 0
IsAdmin s info config = (s.admin_config ≡ some config) × (config.admin ≡ info.sender)

assert_admin-IsAdmin :
    (s : State) (info : MessageInfo) (config : AdminConfig)
    → assert_admin s info ≡ ok config
    → IsAdmin s info config
unfolding assert_admin
assert_admin-IsAdmin s info config e = chain (load s.admin_config) _ e λ c e₁ e₂.
    guarded-elim (not (str_eq info.sender c.admin)) _ _ e₂ λ sender e₃.
      rw (sym (ok-injective e₃))
        (load-eq-ok _ e₁, sym ((eq_iff info.sender c.admin).0 (not-eq-false _ sender)))

-- An operation of the admin: its check, and then the rest.
by_admin :
    (s t : State) (info : MessageInfo) (config : AdminConfig)
    → assert_admin s info ≡ ok config
    → SamePositions s t
    → SentByAdmin s info t
by_admin s t info config e same =
    let a = assert_admin-IsAdmin s info config e in (config, a.0, a.1, same)

same_positions :
    (s t u : State)
    → SamePositions s u
    → (r r' : Response) → ◌≡◌ {A = Result (Response × State)} (ok (r, u)) (ok (r', t))
    → SamePositions s t
same_positions s t u same r r' e =
    rw (sym (ap (λ (p : Response × State). p.1) (ok-injective e))) same

-- An action comes from the Terra manager and changes nothing but the position that is being opened;
-- the internal message comes from the contract itself, and migrating contracts is open to all, but
-- both leave the storage alone; every other message comes from the admin and leaves the positions
-- and their contracts alone. This holds of all messages that succeed.
pub execute-Authorised :
    (h : Host) (codes : Codes) (s : State) (env : Env) (info : MessageInfo) (msg : ExecuteMsg)
    (r : Response) (t : State)
    → execute h codes s env info msg ≡ ok (r, t)
    → Authorised s env info msg t
unfolding execute update_admin_config update_fee_collection_config
    update_position_open_mirror_asset_list add_should_preemptively_close_cdp_mirror_asset_list
    update_context
execute-Authorised h codes s env info (perform_action_msg position action assets) r t e =
    chain (load s.admin_config) _ e λ config e₁ e₂.
      guarded-elim (not (str_eq info.sender config.terra_manager)) _ _ e₂ λ sender e₃. (
        config,
        load-eq-ok _ e₁,
        sym ((eq_iff info.sender config.terra_manager).0 (not-eq-false _ sender)),
        act-OnlyTmp h codes s env info position action assets r t e₃,
      )
execute-Authorised h codes s env info (migrate_position_contracts_msg positions contracts) r t e =
    keep_state-eq-ok s _ r t e
execute-Authorised h codes s env info (send_open_position_msg position params amount) r t e =
    guarded-elim (not (str_eq info.sender env.contract_address)) _ _ e λ sender e₁. (
      (eq_iff info.sender env.contract_address).0 (not-eq-false _ sender),
      keep_state-eq-ok s _ r t e₁,
    )
execute-Authorised h codes s env info (update_admin_config_msg a m c) r t e =
    chain (assert_admin s info) _ e λ config e₁ e₂.
      chain (validated_or h a config.admin) _ e₂ λ admin e₃ e₄.
        chain (validated_or h m config.terra_manager) _ e₄ λ manager e₅ e₆.
          by_admin s t info config e₁
            (same_positions s t _ (record { same_contracts = refl; same_tmp = refl }) _ r e₆)
execute-Authorised h codes s env info (update_fee_collection_config_msg c) r t e =
    chain (assert_admin s info >>= λ config. ok tt) _ e λ u e₁ e₂.
      chain (assert_admin s info) _ e₁ λ config e₃ e₄.
        by_admin s t info config e₃
          (same_positions s t _ (record { same_contracts = refl; same_tmp = refl }) _ r e₂)
execute-Authorised h codes s env info (update_position_open_mirror_asset_list_msg assets allowed) r
      t e =
    chain (assert_admin s info >>= λ config. ok tt) _ e λ u e₁ e₂.
      chain (assert_admin s info) _ e₁ λ config e₃ e₄.
        by_admin s t info config e₃
          (same_positions s t _ (record { same_contracts = refl; same_tmp = refl }) _ r e₂)
execute-Authorised h codes s env info
      (add_should_preemptively_close_cdp_mirror_asset_list_msg assets) r t e =
    chain (assert_admin s info >>= λ config. ok tt) _ e λ u e₁ e₂.
      chain (assert_admin s info) _ e₁ λ config e₃ e₄.
        chain (save_validated h assets s.should_preemptively_close_cdp_mirror_assets) _ e₂
          λ m e₅ e₆.
            by_admin s t info config e₃
              (same_positions s t _ (record { same_contracts = refl; same_tmp = refl }) _ r e₆)
execute-Authorised h codes s env info (update_context_msg u) r t e =
    chain (assert_admin s info >>= λ config. ok tt) _ e λ x e₁ e₂.
      chain (assert_admin s info) _ e₁ λ config e₃ e₄. chain (load s.context) _ e₂ λ context e₅ e₆.
        chain (validated_or h u.controller context.controller) _ e₆ λ controller e₇ e₈.
          chain
            (validated_or h u.mirror_collateral_oracle_addr context.mirror_collateral_oracle_addr) _
            e₈
            λ co e₉ e₁₀.
              chain (validated_or h u.mirror_oracle_addr context.mirror_oracle_addr) _ e₁₀
                λ oracle e₁₁ e₁₂.
                  by_admin s t info config e₃ (
                    same_positions s t _ (record { same_contracts = refl; same_tmp = refl }) _ r
                      e₁₂)
