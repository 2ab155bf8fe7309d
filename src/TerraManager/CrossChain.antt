-- ===== src/TerraManager/CrossChain.antt =====
-- terra_manager/src/cross_chain.rs and util.rs: tokens sent to other chains, instructions received
-- from them, and replies of the token bridge.
use position_managers.Prelude.{
  ℕ, String, true, false, not, Option, none, some, List, [], ◌∷◌, ◌++◌, ◌==◌, if◌then◌else◌, str_eq,
  length, unwrap_or,
}
use position_managers.Cosmwasm.{
  Addr, Bytes, Result, ok, err, panic, ◌>>=◌, ◌>>◌, fail_if, load, generic_err, invalid_data_size,
  sub_128, Coin, MessageInfo, Env,
}
use position_managers.Common.{
  AssetInfo, native_token, token, Asset, Position, Recipient, terra_recipient, external_recipient,
  SwapAndDisburseInfo, terra_chain_id,
}
use position_managers.ByteUtil.{extend_terra_address_to_32, get_address}
use position_managers.Instruction.{
  StrategyInstructionInfo, ApertureInstruction, position_open_instruction,
  execute_strategy_instruction, single_token_disbursement_instruction, serialize, deserialize,
}
use position_managers.Message.{
  CosmosMsg, wasm_execute, bank_send, ReplyOn, SubMsg, Response, plain_messages,
  cw20_increase_allowance, deposit_tokens, initiate_transfer, post_message, submit_vaa,
}
use position_managers.Wormhole.{
  ParsedVaa, TransferInfo, action_transfer, deserialize_token_bridge_message,
  deserialize_transfer_info,
}
use position_managers.Host.{Host}
use position_managers.TokenUtil.{forward_assets_direct, validate_and_accept_incoming_asset_transfer}
use position_managers.TerraManager.State.{State, save, save_bytes, bytes_eq}
use position_managers.TerraManager.TerraChain.{
  assert_admin, create_execute_strategy_messages, save_new_position_info_and_open_it,
}

-- `TOKEN_TRANSFER_SUBMIT_VAA_MSG_ID`, and `WORMHOLE_NONCE` of constants.rs.
abbrev pub token_transfer_submit_vaa_msg_id : ℕ
token_transfer_submit_vaa_msg_id = 0

abbrev pub wormhole_nonce : ℕ
wormhole_nonce = 0

unfoldable pub get_next_sequence : Host → State → Addr → Result ℕ
get_next_sequence h s emitter_address = do
  canonical ← h.addr_canonicalize emitter_address
  core ← load s.wormhole_core_bridge_addr
  sequence ← h.query_sequence core (extend_terra_address_to_32 canonical)
  ok (unwrap_or sequence 0)

-- `if !amount.is_zero() { assets.push(..) }`
abbrev pub push_nonzero : List Asset → AssetInfo → ℕ → List Asset
push_nonzero assets info amount =
    if amount == 0 then assets else assets ++ (record { info = info; amount = amount } ∷ [])

-- The loop that splits each asset into a fee and a cross-chain amount.
unfoldable pub split_fees :
    Host → ℕ → List Asset → List Asset × List Asset → Result (List Asset × List Asset)
split_fees h rate [] acc = ok acc
split_fees h rate (a ∷ assets) (fees, cross) = h.mul_decimal a.amount rate >>= λ fee_amount.
    sub_128 a.amount fee_amount >>= λ cross_chain_amount.
    split_fees h rate assets
      (push_nonzero fees a.info fee_amount, push_nonzero cross a.info cross_chain_amount)

-- `if !funds.is_empty() { response.add_message(BankMsg::Send ..) }`
unfoldable pub send_funds : Addr → List Coin → List CosmosMsg
send_funds to_address [] = []
send_funds to_address (c ∷ coins) = bank_send to_address (c ∷ coins) ∷ []

unfoldable pub only_asset : List Asset → Result Asset
only_asset (asset ∷ []) = ok asset
only_asset assets =
    err (generic_err "only single-token cross-chain disbursement is supported at this time")

-- A native token is deposited with the bridge; a cw20 token is released to it.
unfoldable pub hand_to_bridge : Addr → AssetInfo → ℕ → CosmosMsg
hand_to_bridge bridge (native_token denom) amount =
    wasm_execute bridge deposit_tokens (record { denom = denom; amount = amount } ∷ [])
hand_to_bridge bridge (token contract_addr) amount =
    wasm_execute contract_addr (cw20_increase_allowance bridge amount) []

-- `recipient_addr.to_array()?`
unfoldable pub to_array_32 : Bytes → Result Bytes
to_array_32 bytes =
    if length bytes == 32 then ok bytes else err (invalid_data_size 32 (length bytes))

unfoldable pub transfer_to_chain :
    Host → State → List Asset → ℕ → Bytes → Option SwapAndDisburseInfo → Result (List CosmosMsg)
unfolding split_fees send_funds only_asset hand_to_bridge to_array_32 get_next_sequence
transfer_to_chain h s assets recipient_chain_id recipient_addr swap_info = do
  fee_config ← load s.cross_chain_outgoing_fee_config
  bridge ← load s.wormhole_token_bridge_addr
  (fees, cross) ← split_fees h fee_config.rate assets ([], [])
  let (fee_funds, fee_messages) = forward_assets_direct fees fee_config.fee_collector_addr
  sequence ← get_next_sequence h s bridge
  recipient ← to_array_32 recipient_addr
  instruction_bytes ←
      serialize h.codec
        (single_token_disbursement_instruction sequence recipient_chain_id recipient swap_info)
  core ← load s.wormhole_core_bridge_addr
  asset ← only_asset cross
  manager ← load (s.chain_id_to_aperture_manager_address_map recipient_chain_id)
  ok (
      fee_messages
      ++ (send_funds fee_config.fee_collector_addr fee_funds
          ++ (wasm_execute core (post_message instruction_bytes wormhole_nonce) []
              ∷ hand_to_bridge bridge asset.info asset.amount
              ∷ wasm_execute bridge
                  (initiate_transfer asset recipient_chain_id manager 0 wormhole_nonce) []
              ∷ [])))

unfoldable pub deliver : Host → State → List Asset → Recipient → Result (List CosmosMsg)
unfolding transfer_to_chain
deliver h s assets (terra_recipient recipient) = do
  recipient_addr ← h.addr_validate recipient
  let (funds, messages) = forward_assets_direct assets recipient_addr
  ok (messages ++ send_funds recipient funds)
deliver h s assets (external_recipient recipient_chain_id recipient_addr swap_info) =
    transfer_to_chain h s assets recipient_chain_id recipient_addr swap_info

unfoldable pub initiate_outgoing_token_transfer :
    Host → State → Env → MessageInfo → List Asset → Recipient → Result Response
unfolding deliver
initiate_outgoing_token_transfer h s env info assets recipient = do
  accepted ← validate_and_accept_incoming_asset_transfer h env info assets
  delivered ← deliver h s assets recipient
  ok (plain_messages (accepted ++ delivered))

unfoldable pub register_external_chain_manager :
    Host → State → MessageInfo → ℕ → Bytes → Result (Response × State)
unfolding to_array_32
register_external_chain_manager h s info chain_id aperture_manager_addr = do
  assert_admin h s info
  manager ← to_array_32 aperture_manager_addr
  ok (
    [],
    record s {
      chain_id_to_aperture_manager_address_map =
          save chain_id manager s.chain_id_to_aperture_manager_address_map;
    },
  )

unfoldable pub get_parsed_vaa : Host → State → Env → Bytes → Result ParsedVaa
get_parsed_vaa h s env vaa = do
  core ← load s.wormhole_core_bridge_addr
  h.verify_vaa core vaa env.block_time

-- `denom.retain(|&c| c != 0)`
unfoldable pub retain_nonzero : Bytes → Bytes
retain_nonzero [] = []
retain_nonzero (b ∷ bs) = let rest = retain_nonzero bs in if b == 0 then rest else b ∷ rest

-- The token that 32 bytes stand for: a first byte of 1 marks a native token, whose denomination
-- is what is left of the other bytes.
unfoldable pub parse_token : Host → Bytes → Result AssetInfo
unfolding retain_nonzero
parse_token h [] = panic
parse_token h (b ∷ bs) =
    if b == 1
    then (h.from_utf8 (retain_nonzero (0 ∷ bs)) >>= λ denom. ok (native_token denom))
    else (get_address (b ∷ bs) 0 >>= λ canonical.
        h.addr_humanize canonical >>= λ contract_addr. ok (token contract_addr))

-- Only the low 128 bits of the amount and of the fee are read.
unfoldable pub parse_token_transfer_asset : Host → TransferInfo → Result Asset
unfolding parse_token
parse_token_transfer_asset h t = do
  fail_if (not (t.token_chain == terra_chain_id))
      (generic_err "transferred token is not a Terra token")
  amount ← sub_128 t.amount.1 t.fee.1
  info ← parse_token h t.token_address
  ok (record { info = info; amount = amount })

unfoldable pub process_token_transfer_message : Host → State → Env → ℕ → ℕ → Bytes → Result Asset
unfolding get_parsed_vaa
process_token_transfer_message h s env expected_emitter_chain expected_sequence token_transfer_vaa =
    do
      vaa ← get_parsed_vaa h s env token_transfer_vaa
      fail_if (not (expected_emitter_chain == vaa.emitter_chain))
          (generic_err "unexpected token transfer emitter chain")
      fail_if (not (expected_sequence == vaa.sequence))
          (generic_err "unexpected token transfer sequence")
      message ← deserialize_token_bridge_message vaa.payload
      fail_if (not (message.action == action_transfer))
          (generic_err "unexpected token transfer action")
      transfer ← deserialize_transfer_info message.payload
      fail_if (not (transfer.recipient_chain == terra_chain_id))
          (generic_err "unexpected token transfer recipient")
      canonical ← h.addr_canonicalize env.contract_address
      fail_if (not (bytes_eq transfer.recipient (extend_terra_address_to_32 canonical)))
          (generic_err "unexpected token transfer recipient")
      parse_token_transfer_asset h transfer

abbrev pub submit_vaa_msg : Addr → Bytes → SubMsg
submit_vaa_msg bridge vaa = record {
  id = token_transfer_submit_vaa_msg_id;
  msg = wasm_execute bridge (submit_vaa vaa) [];
  reply_on = ReplyOn.error;
}

-- The loop over the token transfers, zipped with the sequences that the instruction names.
unfoldable pub process_transfers :
    Host → State → Env → Addr → ℕ → List Bytes → List ℕ → Result (List Asset × Response)
process_transfers h s env bridge emitter_chain [] sequences = ok ([], [])
process_transfers h s env bridge emitter_chain (vaa ∷ vaas) [] = ok ([], [])
process_transfers h s env bridge emitter_chain (vaa ∷ vaas) (sequence ∷ sequences) =
    process_token_transfer_message h s env emitter_chain sequence vaa >>= λ asset.
    process_transfers h s env bridge emitter_chain vaas sequences >>= λ rest.
    ok (asset ∷ rest.0, submit_vaa_msg bridge vaa ∷ rest.1)

unfoldable pub strategy_info_of : ApertureInstruction → Result StrategyInstructionInfo
strategy_info_of (position_open_instruction i strategy_id payload) = ok i
strategy_info_of (execute_strategy_instruction i action) = ok i
strategy_info_of (single_token_disbursement_instruction sequence chain recipient swap_info) = panic

-- Opening a position, or acting on one, for the instruction.
unfoldable pub carry_out :
    Host
    → State
    → Env
    → Position
    → ApertureInstruction
    → List Asset
    → Result (List CosmosMsg × State)
carry_out h s env position (position_open_instruction i strategy_id payload) assets =
    save_new_position_info_and_open_it h s env none position strategy_id payload assets
carry_out h s env position (execute_strategy_instruction i action) assets = do
  messages ← create_execute_strategy_messages h s env none position action assets
  ok (messages, s)
carry_out h s env position
      (single_token_disbursement_instruction sequence chain recipient swap_info) assets =
    panic

-- What follows once the instruction is marked as completed in the state.
unfoldable pub fulfil_instruction :
    Host → State → Env → ParsedVaa → List Bytes → Result (Response × State)
unfolding process_transfers strategy_info_of carry_out
fulfil_instruction h s env vaa token_transfer_vaas = do
  instruction ← deserialize h.codec vaa.payload
  strategy_info ← strategy_info_of instruction
  fail_if (not (strategy_info.strategy_chain_id == terra_chain_id))
      (generic_err "instruction not intended for Terra chain")
  fail_if (not (length strategy_info.token_transfer_sequences == length token_transfer_vaas))
      (generic_err "unexpected token_transfer_vaas length")
  bridge ← load s.wormhole_token_bridge_addr
  (assets, submissions) ←
      process_transfers h s env bridge vaa.emitter_chain token_transfer_vaas
        strategy_info.token_transfer_sequences
  (messages, s') ←
      carry_out h s env
        (record { chain_id = vaa.emitter_chain; position_id = strategy_info.position_id })
        instruction assets
  ok (submissions ++ plain_messages messages, s')

abbrev pub mark_completed : State → Bytes → State
mark_completed s hash = record s {
  completed_instructions = save_bytes hash true s.completed_instructions;
}

unfoldable pub process_cross_chain_instruction :
    Host → State → Env → Bytes → List Bytes → Result (Response × State)
unfolding get_parsed_vaa fulfil_instruction
process_cross_chain_instruction h s env instruction_vaa token_transfer_vaas = do
  vaa ← get_parsed_vaa h s env instruction_vaa
  expected_emitter_address ← load (s.chain_id_to_aperture_manager_address_map vaa.emitter_chain)
  fail_if (not (bytes_eq vaa.emitter_address expected_emitter_address))
      (generic_err "unexpected instruction emitter address")
  fail_if (unwrap_or (s.completed_instructions vaa.hash) false)
      (generic_err "instruction already completed")
  fulfil_instruction h (mark_completed s vaa.hash) env vaa token_transfer_vaas

-- The result of a submessage: its error, or `none` for a success.
unfoldable pub reply : ℕ → Option String → Result Response
reply id result = do
  fail_if (not (id == token_transfer_submit_vaa_msg_id)) (generic_err "unexpected reply id")
  elim result [
    | some e ↦
        if str_eq e "Generic error: VaaAlreadyExecuted: execute wasm contract failed"
        then ok []
        else err (generic_err e)
    | none ↦ err (generic_err "unexpected success reply msg")
  ]
