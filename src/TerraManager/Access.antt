-- ===== src/TerraManager/Access.antt =====
-- Who may do what with the Terra manager.
use position_managers.Prelude.{
  ℕ, ◌≡◌, refl, sym, ap, ◌∙◌, ◌⊎◌, inl, inr, false, not, Option, some, List, [], ◌∷◌, ◌++◌, str_eq,
  eq_iff,
}
use position_managers.Cosmwasm.{
  load-eq-ok, not-eq-false, Bytes, ok, load, chain, guarded-elim, ok-injective, MessageInfo, Env,
}
use position_managers.Common.{
  Asset, Action, Position, get_position_key, PositionKey, terra_chain_id, terra_chain,
  external_chain, StrategyMetadata, StrategyLocation,
}
use position_managers.Message.{CosmosMsg, wasm_execute, perform_action, Response, plain_messages}
use position_managers.TokenUtil.{forward_assets_direct}
use position_managers.Host.{Host, AdminLaws}
use position_managers.Instruction.{is_open_position}
use position_managers.TerraManager.State.{State}
use position_managers.TerraManager.TerraChain.{
  execute_strategy, get_terra_strategy_id, accept_assets, create_execute_strategy_messages,
}
use position_managers.TerraManager.CrossChain.{mark_completed}
use position_managers.TerraManager.Contract.{
  ExecuteMsg, update_admin_addr, add_strategy_msg, remove_strategy_msg,
  register_external_chain_manager_msg, create_position_msg, execute_strategy_msg,
  process_cross_chain_instruction_msg, initiate_outgoing_token_transfer_msg, execute,
}
use position_managers.TerraManager.Settings.{
  add_strategy-AddedStrategy, remove_strategy-eq-ok, register-eq-ok, update_admin-eq-ok,
  keep_state-eq-ok,
}
use position_managers.TerraManager.Effects.{
  located, create_position-Created, process_cross_chain_instruction-Accepted,
  fulfil_instruction-located,
}

-- Where a position's messages go: to the manager of the Terra strategy that the position is
-- mapped to. The last message asks for the action, and carries the native coins.
pub record GoesToManager (s : State) (position : Position) (action : Action) (assets : List Asset)
    (msgs : List CosmosMsg) : Type 0 where
  pub strategy_id : ℕ
  pub metadata : StrategyMetadata
  pub front : List CosmosMsg
  pub located :
      s.position_to_strategy_location_map (get_position_key position)
      ≡ some (terra_chain strategy_id)
  pub registered : s.strategy_id_to_metadata_map strategy_id ≡ some metadata
  pub sent :
      msgs
      ≡ front
        ++ (wasm_execute metadata.manager_addr
              (perform_action position action assets)
              (forward_assets_direct assets metadata.manager_addr).0
            ∷ [])

get_terra_strategy_id-eq-ok :
    (l : StrategyLocation) (id : ℕ) → get_terra_strategy_id l ≡ ok id → l ≡ terra_chain id
unfolding get_terra_strategy_id
get_terra_strategy_id-eq-ok (external_chain chain) id e = cc
get_terra_strategy_id-eq-ok (terra_chain i) id e = cc

pub create_execute_strategy_messages-GoesToManager :
    (h : Host) (s : State) (env : Env) (info : Option MessageInfo) (position : Position)
    (action : Action) (assets : List Asset) (msgs : List CosmosMsg)
    → create_execute_strategy_messages h s env info position action assets ≡ ok msgs
    → GoesToManager s position action assets msgs
unfolding create_execute_strategy_messages
create_execute_strategy_messages-GoesToManager h s env info position action assets msgs e =
    chain (load (s.position_to_strategy_location_map (get_position_key position))) _ e
      λ location e₁ e₂. chain (get_terra_strategy_id location) _ e₂ λ id e₃ e₄.
        chain (load (s.strategy_id_to_metadata_map id)) _ e₄ λ metadata e₅ e₆.
          chain (accept_assets h env info assets) _ e₆ λ accepted e₇ e₈. record {
            strategy_id = id;
            metadata = metadata;
            front = accepted ++ (forward_assets_direct assets metadata.manager_addr).1;
            located = load-eq-ok _ e₁ ∙ ap some (get_terra_strategy_id-eq-ok location id e₃);
            registered = load-eq-ok _ e₅;
            sent = sym (ok-injective e₈);
          }

-- An action on a Terra position succeeds only for its holder, does not open the position, and is
-- sent to the manager of the position's strategy.
pub execute_strategy_lem :
    (h : Host) (s : State) (env : Env) (info : MessageInfo) (position_id : ℕ) (action : Action)
    (assets : List Asset) (r : Response)
    → execute_strategy h s env info position_id action assets ≡ ok r
    → (s.position_id_to_holder position_id ≡ some info.sender)
      × (is_open_position action ≡ false)
      × (msgs : List CosmosMsg) × GoesToManager s
          (record { chain_id = terra_chain_id; position_id = position_id })
          action
          assets
          msgs
      × (r ≡ plain_messages msgs)
unfolding execute_strategy
execute_strategy_lem h s env info position_id action assets r e =
    chain (load (s.position_id_to_holder position_id)) _ e λ holder e₁ e₂.
      guarded-elim (not (str_eq holder info.sender)) _ _ e₂ λ authorized e₃.
        guarded-elim (is_open_position action) _ _ e₃ λ not_open e₄.
          chain
            (create_execute_strategy_messages h s env (some info)
              (record { chain_id = terra_chain_id; position_id = position_id }) action assets)
            _ e₄
            λ msgs e₅ e₆. (
              load-eq-ok _ e₁ ∙ ap some ((eq_iff holder info.sender).0 (not-eq-false _ authorized)),
              not_open,
              msgs,
              create_execute_strategy_messages-GoesToManager h s env (some info) _ action assets
                  msgs e₅,
              sym (ok-injective e₆),
            )

-- What only the admin may change.
pub record SameSettings (s t : State) : Type 0 where
  pub same_admin : t.admin ≡ s.admin
  pub same_strategies : t.strategy_id_to_metadata_map ≡ s.strategy_id_to_metadata_map
  pub same_next_strategy : t.next_strategy_id ≡ s.next_strategy_id
  pub same_managers :
      t.chain_id_to_aperture_manager_address_map ≡ s.chain_id_to_aperture_manager_address_map
  pub same_fees : t.cross_chain_outgoing_fee_config ≡ s.cross_chain_outgoing_fee_config
  pub same_core : t.wormhole_core_bridge_addr ≡ s.wormhole_core_bridge_addr
  pub same_bridge : t.wormhole_token_bridge_addr ≡ s.wormhole_token_bridge_addr

located-SameSettings :
    (s t : State)
    → (t ≡ s) ⊎ ((key : PositionKey) × (id : ℕ) × (t ≡ located s key id))
    → SameSettings s t
located-SameSettings s t (inl same) = rw same (record {
  same_admin = refl;
  same_strategies = refl;
  same_next_strategy = refl;
  same_managers = refl;
  same_fees = refl;
  same_core = refl;
  same_bridge = refl;
})
located-SameSettings s t (inr (key, id, changed)) = rw changed (record {
  same_admin = refl;
  same_strategies = refl;
  same_next_strategy = refl;
  same_managers = refl;
  same_fees = refl;
  same_core = refl;
  same_bridge = refl;
})

-- Marking an instruction as completed changes no setting.
marked-SameSettings :
    (s : State) (hash : Bytes) (t : State)
    → SameSettings (mark_completed s hash) t
    → SameSettings s t
marked-SameSettings s hash t m = record {
  same_admin = m.same_admin;
  same_strategies = m.same_strategies;
  same_next_strategy = m.same_next_strategy;
  same_managers = m.same_managers;
  same_fees = m.same_fees;
  same_core = m.same_core;
  same_bridge = m.same_bridge;
}

-- Given that cw_controllers' `Admin` is as documented, every message that succeeds was sent by the admin, or leaves the admin, the strategies, the
-- registered managers, the fee and the bridge addresses as they were.
pub execute-SameSettings :
    (h : Host) (s : State) (env : Env) (info : MessageInfo) (msg : ExecuteMsg) (r : Response)
    (t : State)
    → AdminLaws h
    → execute h s env info msg ≡ ok (r, t)
    → (s.admin ≡ some info.sender) ⊎ SameSettings s t
unfolding execute
execute-SameSettings h s env info (update_admin_addr a) r t laws e =
    let u = update_admin-eq-ok h s info a r t e in
    inl (laws.updates s.admin info.sender (some u.0) u.1 u.3).0
execute-SameSettings h s env info (add_strategy_msg name version a) r t laws e = inl (
    laws.asserts s.admin info.sender
      (add_strategy-AddedStrategy h s info name version a r t e).asserted)
execute-SameSettings h s env info (remove_strategy_msg id) r t laws e =
    inl (laws.asserts s.admin info.sender (remove_strategy-eq-ok h s info id r t e).0)
execute-SameSettings h s env info (register_external_chain_manager_msg id a) r t laws e =
    inl (laws.asserts s.admin info.sender (register-eq-ok h s info id a r t e).0)
execute-SameSettings h s env info (create_position_msg strategy payload assets) r t laws e = inr (
    rw (create_position-Created h s env info strategy payload assets r t e).state_is (record {
      same_admin = refl;
      same_strategies = refl;
      same_next_strategy = refl;
      same_managers = refl;
      same_fees = refl;
      same_core = refl;
      same_bridge = refl;
    }))
execute-SameSettings h s env info (execute_strategy_msg id action assets) r t laws e = inr (
    rw (keep_state-eq-ok s _ r t e).0 (record {
      same_admin = refl;
      same_strategies = refl;
      same_next_strategy = refl;
      same_managers = refl;
      same_fees = refl;
      same_core = refl;
      same_bridge = refl;
    }))
execute-SameSettings h s env info (process_cross_chain_instruction_msg vaa vaas) r t laws e =
    let a = process_cross_chain_instruction-Accepted h s env vaa vaas r t e in
    inr (
      marked-SameSettings s a.vaa.hash t (
        located-SameSettings (mark_completed s a.vaa.hash) t (
          fulfil_instruction-located h (mark_completed s a.vaa.hash) env a.vaa vaas r t
            a.fulfilled)))
execute-SameSettings h s env info (initiate_outgoing_token_transfer_msg assets recipient) r t laws
      e =
    inr (
      rw (keep_state-eq-ok s _ r t e).0 (record {
        same_admin = refl;
        same_strategies = refl;
        same_next_strategy = refl;
        same_managers = refl;
        same_fees = refl;
        same_core = refl;
        same_bridge = refl;
      }))
