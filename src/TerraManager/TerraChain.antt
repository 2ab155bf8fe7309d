-- ===== src/TerraManager/TerraChain.antt =====
-- terra_manager/src/terra_chain.rs: strategies, and positions held by Terra addresses.
use position_managers.Prelude.{
  ℕ, String, not, Option, none, some, List, [], ◌∷◌, ◌++◌, ◌==◌, str_eq,
}
use position_managers.Cosmwasm.{
  Addr, Bytes, Result, ok, err, ◌>>=◌, ◌>>◌, fail_if, load, generic_err, checked_add, MessageInfo,
  Env,
}
use position_managers.Common.{
  Asset, Position, Strategy, StrategyLocation, terra_chain, external_chain, Action, open_position,
  get_position_key, terra_chain_id,
}
use position_managers.Instruction.{is_open_position}
use position_managers.Message.{CosmosMsg, wasm_execute, perform_action, Response, plain_messages}
use position_managers.Host.{Host}
use position_managers.TokenUtil.{forward_assets_direct, validate_and_accept_incoming_asset_transfer}
use position_managers.TerraManager.State.{State, save, remove, save_position, save_pair}

-- `assert_admin(..).map_err(|err| StdError::generic_err(err.to_string()))` keeps the message.
abbrev pub assert_admin : Host → State → MessageInfo → Result (Unit {0})
assert_admin h s info = h.assert_admin s.admin info.sender

unfoldable pub add_strategy :
    Host → State → MessageInfo → String → String → String → Result (Response × State)
add_strategy h s info name version manager_addr = do
  assert_admin h s info
  strategy_id ← load s.next_strategy_id
  next ← checked_add 64 strategy_id 1
  manager ← h.addr_validate manager_addr
  ok (
    [],
    record s {
      next_strategy_id = some next;
      strategy_id_to_metadata_map =
          save strategy_id (record { name = name; version = version; manager_addr = manager })
            s.strategy_id_to_metadata_map;
    },
  )

unfoldable pub remove_strategy : Host → State → MessageInfo → ℕ → Result (Response × State)
remove_strategy h s info strategy_id = do
  assert_admin h s info
  ok (
    [],
    record s { strategy_id_to_metadata_map = remove strategy_id s.strategy_id_to_metadata_map },
  )

unfoldable pub get_terra_strategy_id : StrategyLocation → Result ℕ
get_terra_strategy_id (external_chain chain) =
    err (generic_err "Cross-chain action not yet supported")
get_terra_strategy_id (terra_chain strategy_id) = ok strategy_id

-- The assets that a Terra caller offers are taken in; those of a cross-chain instruction, which
-- has no caller, are here already.
unfoldable pub accept_assets :
    Host → Env → Option MessageInfo → List Asset → Result (List CosmosMsg)
accept_assets h env none assets = ok []
accept_assets h env (some info) assets =
    validate_and_accept_incoming_asset_transfer h env info assets

unfoldable pub create_execute_strategy_messages :
    Host
    → State
    → Env
    → Option MessageInfo
    → Position
    → Action
    → List Asset
    → Result (List CosmosMsg)
unfolding get_terra_strategy_id accept_assets
create_execute_strategy_messages h s env info position action assets = do
  strategy_location ← load (s.position_to_strategy_location_map (get_position_key position))
  strategy_id ← get_terra_strategy_id strategy_location
  metadata ← load (s.strategy_id_to_metadata_map strategy_id)
  messages ← accept_assets h env info assets
  let forwarded = forward_assets_direct assets metadata.manager_addr
  ok (
      (messages ++ forwarded.1)
      ++ (wasm_execute metadata.manager_addr (perform_action position action assets) forwarded.0
          ∷ []))

unfoldable pub save_new_position_info_and_open_it :
    Host
    → State
    → Env
    → Option MessageInfo
    → Position
    → ℕ
    → Option Bytes
    → List Asset
    → Result (List CosmosMsg × State)
save_new_position_info_and_open_it h s env info position strategy_id payload assets =
    let s' = record s {
      position_to_strategy_location_map =
          save_position (get_position_key position) (terra_chain strategy_id)
            s.position_to_strategy_location_map;
    } in
    do
      messages ←
          create_execute_strategy_messages h s' env info position (open_position payload) assets
      ok (messages, s')

-- The caller becomes the holder of the next position id.
abbrev pub assign_position_id : State → Addr → ℕ → ℕ → State
assign_position_id s sender position_id next = record s {
  next_position_id = some next;
  position_id_to_holder = save position_id sender s.position_id_to_holder;
  holder_position_id_pair_set = save_pair sender position_id s.holder_position_id_pair_set;
}

unfoldable pub create_position :
    Host
    → State
    → Env
    → MessageInfo
    → Strategy
    → Option Bytes
    → List Asset
    → Result (Response × State)
unfolding save_new_position_info_and_open_it
create_position h s env info strategy payload assets = do
  fail_if (not (strategy.chain_id == terra_chain_id))
      (generic_err "external chain strategy not yet supported")
  position_id ← load s.next_position_id
  next ← checked_add 128 position_id 1
  (messages, s') ←
      save_new_position_info_and_open_it h (assign_position_id s info.sender position_id next) env
        (some info) (record { chain_id = terra_chain_id; position_id = position_id })
        strategy.strategy_id payload assets
  ok (plain_messages messages, s')

unfoldable pub execute_strategy :
    Host → State → Env → MessageInfo → ℕ → Action → List Asset → Result Response
unfolding is_open_position
execute_strategy h s env info position_id action assets = do
  holder ← load (s.position_id_to_holder position_id)
  fail_if (not (str_eq holder info.sender)) (generic_err "unauthorized")
  fail_if (is_open_position action)
      (generic_err "open-position action on an existing position is disallowed")
  messages ←
      create_execute_strategy_messages h s env (some info)
        (record { chain_id = terra_chain_id; position_id = position_id }) action assets
  ok (plain_messages messages)
