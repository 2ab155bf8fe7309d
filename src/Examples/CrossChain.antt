-- ===== src/Examples/CrossChain.antt =====
-- Runs of the Terra manager: cross-chain instructions and transfers of tokens.
use position_managers.Prelude.{◌≡◌, ◌↔◌, refl, false, none, some, List, [], ◌∷◌, All}
use position_managers.Cosmwasm.{is_ok, Result, ok}
use position_managers.Common.{Asset, native_token, token, terra_chain}
use position_managers.Message.{CosmosMsg, Response}
use position_managers.Instruction.{serialize, deserialize, strategy_bytes, data_bytes}
use position_managers.ByteUtil.{
  to_be_bytes, from_be_bytes, split_at, get_u16, get_u256, get_bytes32, get_address,
  extend_terra_address_to_32, get_u8,
}
use position_managers.Wormhole.{deserialize_transfer_info, deserialize_token_bridge_message}
use position_managers.TokenUtil.{forward_assets_direct, validate_and_accept_incoming_asset_transfer}
use position_managers.TokenUtil.Transfers.{
  passed_on, asset_total, forward_assets_direct-passed_on, IsCovered, all_taken_in,
  validate_and_accept_incoming_asset_transfer_iff,
}
use position_managers.TerraManager.State.{State}
use position_managers.TerraManager.TerraChain.{
  create_position, execute_strategy, create_execute_strategy_messages, add_strategy,
  remove_strategy,
}
use position_managers.TerraManager.CrossChain.{
  process_cross_chain_instruction, process_token_transfer_message, transfer_to_chain,
  get_parsed_vaa, fulfil_instruction, parse_token_transfer_asset,
}
use position_managers.TerraManager.Contract.{instantiate, execute}
use position_managers.TerraManager.Replay.{here, process_cross_chain_instruction_once}
use position_managers.TerraManager.Fees.{SentAbroad, transfer_to_chain-SentAbroad}
use position_managers.TerraManager.Arrivals.{
  Arrived, process_token_transfer_message-Arrived, Fulfilled, fulfil_instruction-Fulfilled,
}
use position_managers.Examples.Data.{host, env, from, instruction_vaa}
use position_managers.Examples.Terra.{outcome, start, assets}

-- What the runs compute with.
program : Unit {0}
unfolding execute process_cross_chain_instruction create_position execute_strategy
    create_execute_strategy_messages forward_assets_direct
    validate_and_accept_incoming_asset_transfer instantiate deserialize to_be_bytes from_be_bytes
    process_token_transfer_message parse_token_transfer_asset deserialize_transfer_info
    deserialize_token_bridge_message get_u16 get_u256 get_bytes32 get_address
    extend_terra_address_to_32 get_u8 transfer_to_chain add_strategy split_at get_parsed_vaa
    fulfil_instruction strategy_bytes data_bytes remove_strategy serialize
program = tt

abbrev process_run : Result (Response × State)
process_run = process_cross_chain_instruction host start env (1 ∷ []) ((2 ∷ []) ∷ [])

abbrev after_process : Response × State
after_process = outcome ([], start) process_run

process_run_ok : process_run ≡ ok after_process
unfolding program
process_run_ok = refl

-- The position of chain 2 is opened with the 990 units that arrived, less the fee.
process_run_opens : after_process.1.position_to_strategy_location_map (2, 5) ≡ some (terra_chain 0)
unfolding program
process_run_opens = refl

parsed_ok : get_parsed_vaa host start env (1 ∷ []) ≡ ok instruction_vaa
unfolding program
parsed_ok = refl

parsed_again : get_parsed_vaa host after_process.1 env (1 ∷ []) ≡ ok instruction_vaa
unfolding program
parsed_again = refl

process_cross_chain_instruction_once_example :
    is_ok (process_cross_chain_instruction host after_process.1 env (1 ∷ []) ((2 ∷ []) ∷ []))
    ≡ false
process_cross_chain_instruction_once_example =
    process_cross_chain_instruction_once host start env (1 ∷ []) ((2 ∷ []) ∷ []) after_process.0
      after_process.1 after_process.1 host env (1 ∷ []) ((2 ∷ []) ∷ []) instruction_vaa
      instruction_vaa process_run_ok parsed_ok here parsed_again refl

fulfil_instruction-Fulfilled_example : Fulfilled host start env instruction_vaa ((2 ∷ []) ∷ [])
unfolding program
fulfil_instruction-Fulfilled_example =
    fulfil_instruction-Fulfilled host start env instruction_vaa ((2 ∷ []) ∷ [])
      (outcome ([], start) (fulfil_instruction host start env instruction_vaa ((2 ∷ []) ∷ []))) refl

process_token_transfer_message-Arrived_example :
    Arrived host start env 2 7 (2 ∷ []) (record { info = native_token "uusd"; amount = 990 })
unfolding program
process_token_transfer_message-Arrived_example =
    process_token_transfer_message-Arrived host start env 2 7 (2 ∷ [])
      (record { info = native_token "uusd"; amount = 990 }) refl

-- 0.1% of 1001 units is a fee of 1, as in the contract's own test.
abbrev abroad : List Asset
abroad = record { info = native_token "uusd"; amount = 1001 } ∷ []

abbrev abroad_messages : List CosmosMsg
abroad_messages = outcome [] (transfer_to_chain host start abroad 2 (to_be_bytes 32 1) none)

transfer_to_chain-SentAbroad_example :
    SentAbroad host start abroad 2 (to_be_bytes 32 1) none abroad_messages
unfolding program
transfer_to_chain-SentAbroad_example =
    transfer_to_chain-SentAbroad host start abroad 2 (to_be_bytes 32 1) none abroad_messages refl

forward_assets_direct-passed_on_example :
    let forwarded = forward_assets_direct assets "carol" in
    passed_on (token "cw20") "carol" forwarded.0 forwarded.1 ≡ 200
unfolding asset_total
forward_assets_direct-passed_on_example =
    forward_assets_direct-passed_on (token "cw20") assets "carol"

validate_iff_example :
    (validate_and_accept_incoming_asset_transfer host env (from "alice") assets
      ≡ ok (all_taken_in env (from "alice") assets))
    ↔ (All (λ a. IsCovered host env (from "alice") a.info a.amount) assets
        × (all_taken_in env (from "alice") assets ≡ all_taken_in env (from "alice") assets))
validate_iff_example =
    validate_and_accept_incoming_asset_transfer_iff host env (from "alice") assets
      (all_taken_in env (from "alice") assets)
