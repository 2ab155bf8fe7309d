-- ===== src/DeltaNeutralManager/Contract.antt =====
-- contracts/delta_neutral_position_manager/src/contract.rs: opening and closing positions, each in a
-- contract of its own, migrating those contracts, and the dispatch of messages.
use position_managers.Prelude.{
  ℕ, String, Bool, true, false, not, ◌&&◌, Option, none, some, List, [], ◌∷◌, ◌++◌, leb, ◌==◌,
  str_eq, if◌then◌else◌,
}
use position_managers.Cosmwasm.{
  Addr, Bytes, Result, ok, err, panic, ◌>>=◌, ◌>>◌, fail_if, load, unwrap, is_ok, generic_err,
  parse_err, Coin, MessageInfo, Env,
}
use position_managers.Common.{
  AssetInfo, native_token, token, Asset, Position, get_position_key, Recipient, Action,
  open_position, close_position, increase_position, decrease_position,
}
use position_managers.Message.{
  DeltaNeutralParams, CosmosMsg, wasm_execute, wasm_instantiate, wasm_migrate,
  send_open_position_to_position_contract, position_open, position_close, ReplyOn, Response, plain,
  plain_messages,
}
use position_managers.Message as Message
use position_managers.Host.{Host}
use position_managers.TerraManager.State.{save_position}
use position_managers.DeltaNeutralManager.State.{Context, FeeCollectionConfig, State, Codes}
use position_managers.DeltaNeutralManager.Settings.{
  update_admin_config, update_fee_collection_config, update_position_open_mirror_asset_list,
  add_should_preemptively_close_cdp_mirror_asset_list, ContextUpdate, update_context,
}

unfoldable pub is_enough_uusd : Host → MessageInfo → Context → AssetInfo → ℕ → Bool
is_enough_uusd h info context (token contract_addr) amount = false
is_enough_uusd h info context (native_token denom) amount =
    str_eq denom "uusd"
    && (leb context.min_open_uusd_amount amount
        && is_ok (
            h.assert_sent_native_token_balance
              (record { info = native_token denom; amount = amount }) info))

-- Exactly one asset, of uusd, not less than the least amount.
unfoldable pub validate_assets : Host → MessageInfo → Context → List Asset → Result ℕ
validate_assets h info context (a ∷ []) =
    if is_enough_uusd h info context a.info a.amount
    then ok a.amount
    else err (generic_err "invalid assets")
validate_assets h info context assets = err (generic_err "invalid assets")

abbrev pub instantiate_reply_id : ℕ
instantiate_reply_id = 1

unfoldable pub open_new_position :
    Host
    → State
    → Env
    → MessageInfo
    → Position
    → DeltaNeutralParams
    → List Asset
    → Result (Response × State)
open_new_position h s env info position params assets = do
  context ← load s.context
  uusd_amount ← validate_assets h info context assets
  allowed ← load (s.position_open_allowed_mirror_assets params.mirror_asset_cw20_addr)
  fail_if (not allowed) (generic_err "mAsset not allowed")
  config ← load s.admin_config
  ok (
    record {
      id = instantiate_reply_id;
      msg = wasm_instantiate env.contract_address config.delta_neutral_position_code_id;
      reply_on = ReplyOn.success;
    }
        ∷ plain (
            wasm_execute env.contract_address
              (send_open_position_to_position_contract position params uusd_amount) [])
        ∷ [],
    record s { tmp_position = some position },
  )

abbrev pub uusd_funds : Option ℕ → List Coin
uusd_funds none = []
uusd_funds (some amount) = record { denom = "uusd"; amount = amount } ∷ []

unfoldable pub send_execute_message_to_position_contract :
    State → Position → Message.ExecuteMsg → Option ℕ → Result Response
send_execute_message_to_position_contract s position msg uusd_amount = do
  contract_addr ← load (s.position_to_contract_addr (get_position_key position))
  ok (plain_messages (wasm_execute contract_addr msg (uusd_funds uusd_amount) ∷ []))

unfoldable pub close : State → Position → Recipient → Result Response
close s position recipient =
    send_execute_message_to_position_contract s position (position_close recipient) none

-- The contracts of some positions; one without a contract makes `unwrap` panic.
contracts_of : State → List Position → Result (List Addr)
contracts_of s [] = ok []
contracts_of s (position ∷ positions) = do
  contract ← unwrap (s.position_to_contract_addr (get_position_key position))
  contracts ← contracts_of s positions
  ok (contract ∷ contracts)

-- A contract whose code id cannot be read needs a migration, too.
unfoldable pub needs_migration : Option ℕ → ℕ → Bool
needs_migration none new_code_id = true
needs_migration (some current_code_id) new_code_id = not (current_code_id == new_code_id)

migrate_messages : Codes → ℕ → List Addr → List CosmosMsg
migrate_messages codes new_code_id [] = []
migrate_messages codes new_code_id (contract ∷ contracts) =
    let rest = migrate_messages codes new_code_id contracts in
    if needs_migration (codes.query_code_id contract) new_code_id
    then wasm_migrate contract new_code_id ∷ rest
    else rest

unfoldable pub migrate_position_contracts :
    Codes → State → List Position → List Addr → Result Response
unfolding contracts_of migrate_messages
migrate_position_contracts codes s positions position_contracts = do
  config ← load s.admin_config
  contracts ← contracts_of s positions
  ok (
      plain_messages (
        migrate_messages codes config.delta_neutral_position_code_id
          (position_contracts ++ contracts)))

unfoldable pub keep_state : State → Result Response → Result (Response × State)
keep_state s r = r >>= λ response. ok (response, s)

-- What the action of a message from the Terra manager comes to.
unfoldable pub act :
    Host
    → Codes
    → State
    → Env
    → MessageInfo
    → Position
    → Action
    → List Asset
    → Result (Response × State)
act h codes s env info position (open_position payload) assets = do
  data_bytes ← unwrap payload
  params ← codes.params_from_binary data_bytes
  open_new_position h s env info position params assets
act h codes s env info position (increase_position payload) assets =
    err (generic_err "not supported")
act h codes s env info position (decrease_position proportion recipient) assets =
    err (generic_err "not supported")
act h codes s env info position (close_position recipient) assets =
    keep_state s (close s position recipient)

pub data ExecuteMsg : Type 0 where
  perform_action_msg : Position → Action → List Asset → ExecuteMsg
  migrate_position_contracts_msg : List Position → List Addr → ExecuteMsg
  update_admin_config_msg : Option String → Option String → Option ℕ → ExecuteMsg
  update_fee_collection_config_msg : FeeCollectionConfig → ExecuteMsg
  update_position_open_mirror_asset_list_msg : List String → Bool → ExecuteMsg
  add_should_preemptively_close_cdp_mirror_asset_list_msg : List String → ExecuteMsg
  update_context_msg : ContextUpdate → ExecuteMsg
  send_open_position_msg : Position → DeltaNeutralParams → ℕ → ExecuteMsg

unfoldable pub execute :
    Host → Codes → State → Env → MessageInfo → ExecuteMsg → Result (Response × State)
execute h codes s env info (perform_action_msg position action assets) = do
  config ← load s.admin_config
  fail_if (not (str_eq info.sender config.terra_manager)) (generic_err "unauthorized")
  act h codes s env info position action assets
execute h codes s env info (migrate_position_contracts_msg positions position_contracts) =
    keep_state s (migrate_position_contracts codes s positions position_contracts)
execute h codes s env info (update_admin_config_msg admin_addr terra_manager_addr code_id) =
    update_admin_config h s info admin_addr terra_manager_addr code_id
execute h codes s env info (update_fee_collection_config_msg config) =
    update_fee_collection_config s info config
execute h codes s env info (update_position_open_mirror_asset_list_msg mirror_assets allowed) =
    update_position_open_mirror_asset_list s info mirror_assets allowed
execute h codes s env info (add_should_preemptively_close_cdp_mirror_asset_list_msg mirror_assets) =
    add_should_preemptively_close_cdp_mirror_asset_list h s info mirror_assets
execute h codes s env info (update_context_msg u) = update_context h s info u
execute h codes s env info (send_open_position_msg position params uusd_amount) = do
  fail_if (not (str_eq info.sender env.contract_address)) (generic_err "unauthorized")
  keep_state s (
      send_execute_message_to_position_contract s position (position_open params)
        (some uusd_amount))

-- The outcome of a submessage: a failure, or the data that it returned.
pub data SubMsgResult : Type 0 where
  failed : SubMsgResult
  returned : Option Bytes → SubMsgResult

unfoldable pub reply_data : SubMsgResult → Result Bytes
reply_data failed = panic
reply_data (returned d) = unwrap d

-- `parse_from_bytes(..).map_err(..)`
unfoldable pub instantiated_address : Codes → Bytes → Result String
instantiated_address codes d = elim (codes.parse_instantiate_response d) [
  | none ↦ err (
      parse_err "MsgInstantiateContractResponse"
        "Delta Neutral Position Manager failed to parse MsgInstantiateContractResponse")
  | some address ↦ ok address
]

unfoldable pub reply : Host → Codes → State → SubMsgResult → Result (Response × State)
reply h codes s result = do
  d ← reply_data result
  address ← instantiated_address codes d
  contract_addr ← h.addr_validate address
  position ← load s.tmp_position
  ok (
    [],
    record s {
      position_to_contract_addr =
          save_position (get_position_key position) contract_addr s.position_to_contract_addr;
    },
  )
