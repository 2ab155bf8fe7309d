-- ===== src/TerraManager/Contract.antt =====
-- terra_manager/src/contract.rs: instantiation, and the dispatch of the contract's messages.
use position_managers.Prelude.{ℕ, String, Option, some, List, []}
use position_managers.Cosmwasm.{Bytes, Result, ok, err, panic, ◌>>=◌, MessageInfo, Env}
use position_managers.Common.{Asset, Strategy, Action, Recipient}
use position_managers.Message.{Response}
use position_managers.Host.{Host}
use position_managers.TerraManager.State.{State, no_state}
use position_managers.TerraManager.TerraChain.{
  add_strategy, remove_strategy, create_position, execute_strategy,
}
use position_managers.TerraManager.CrossChain.{
  initiate_outgoing_token_transfer, register_external_chain_manager,
  process_cross_chain_instruction,
}

pub record InstantiateMsg : Type 0 where
  pub admin_addr : String
  pub wormhole_core_bridge_addr : String
  pub wormhole_token_bridge_addr : String
  pub cross_chain_outgoing_fee_rate : ℕ
  pub cross_chain_outgoing_fee_collector_addr : String

unfoldable pub instantiate : Host → InstantiateMsg → Result (Response × State)
instantiate h msg = do
  admin ← h.addr_validate msg.admin_addr
  token_bridge ← h.addr_validate msg.wormhole_token_bridge_addr
  core_bridge ← h.addr_validate msg.wormhole_core_bridge_addr
  collector ← h.addr_validate msg.cross_chain_outgoing_fee_collector_addr
  ok (
    [],
    record no_state {
      admin = some admin;
      wormhole_token_bridge_addr = some token_bridge;
      wormhole_core_bridge_addr = some core_bridge;
      cross_chain_outgoing_fee_config =
          some
            (record { rate = msg.cross_chain_outgoing_fee_rate; fee_collector_addr = collector });
      next_strategy_id = some 0;
      next_position_id = some 0;
    },
  )

pub data ExecuteMsg : Type 0 where
  update_admin_addr : String → ExecuteMsg
  add_strategy_msg : String → String → String → ExecuteMsg
  remove_strategy_msg : ℕ → ExecuteMsg
  register_external_chain_manager_msg : ℕ → Bytes → ExecuteMsg
  create_position_msg : Strategy → Option Bytes → List Asset → ExecuteMsg
  execute_strategy_msg : ℕ → Action → List Asset → ExecuteMsg
  process_cross_chain_instruction_msg : Bytes → List Bytes → ExecuteMsg
  initiate_outgoing_token_transfer_msg : List Asset → Recipient → ExecuteMsg

-- `.unwrap()`: a caller who is not the admin makes this panic.
unfoldable pub unwrap_result {ℓ} : {A : Type ℓ} → Result A → Result A
unwrap_result (ok a) = ok a
unwrap_result (err e) = panic
unwrap_result panic = panic

unfoldable pub update_admin : Host → State → MessageInfo → String → Result (Response × State)
unfolding unwrap_result
update_admin h s info new_admin_addr = do
  new_admin ← h.addr_validate new_admin_addr
  admin ← unwrap_result (h.execute_update_admin s.admin info.sender (some new_admin))
  ok ([], record s { admin = admin })

-- A handler that only reads the storage.
abbrev pub keep_state : State → Result Response → Result (Response × State)
keep_state s r = r >>= λ response. ok (response, s)

unfoldable pub execute : Host → State → Env → MessageInfo → ExecuteMsg → Result (Response × State)
unfolding update_admin
execute h s env info (update_admin_addr new_admin_addr) = update_admin h s info new_admin_addr
execute h s env info (add_strategy_msg name version manager_addr) =
    add_strategy h s info name version manager_addr
execute h s env info (remove_strategy_msg strategy_id) = remove_strategy h s info strategy_id
execute h s env info (register_external_chain_manager_msg chain_id manager) =
    register_external_chain_manager h s info chain_id manager
execute h s env info (create_position_msg strategy payload assets) =
    create_position h s env info strategy payload assets
execute h s env info (execute_strategy_msg position_id action assets) =
    keep_state s (execute_strategy h s env info position_id action assets)
execute h s env info (process_cross_chain_instruction_msg instruction_vaa token_transfer_vaas) =
    process_cross_chain_instruction h s env instruction_vaa token_transfer_vaas
execute h s env info (initiate_outgoing_token_transfer_msg assets recipient) =
    keep_state s (initiate_outgoing_token_transfer h s env info assets recipient)
