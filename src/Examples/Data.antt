-- ===== src/Examples/Data.antt =====
-- A small chain for the runs: stand-ins for base 64, addresses, queries and decimals.
use position_managers.Prelude.{
  ℕ, ◌*◌, ◌/◌, ◌^◌, Option, none, some, [], ◌∷◌, ◌++◌, str_eq, if◌then◌else◌, ltb, ◌==◌,
}
use position_managers.Cosmwasm.{Addr, Bytes, Result, ok, err, panic, generic_err, MessageInfo, Env}
use position_managers.Common.{Action, close_position, terra_recipient}
use position_managers.Instruction.{Codec, StrategyInstructionInfo, strategy_bytes, data_bytes}
use position_managers.ByteUtil.{to_be_bytes, extend_terra_address_to_32}
use position_managers.Wormhole.{ParsedVaa}
use position_managers.Host.{Host}

abbrev pub closing : Action
closing = close_position (terra_recipient "bob")

-- The text of a payload is the payload, and the one action that is ever sent is `closing`.
abbrev pub codec : Codec
codec = record {
  to_base64 = λ b. b;
  from_base64 = λ b. ok b;
  to_binary = λ a. ok (1 ∷ 2 ∷ []);
  from_binary = λ b. ok closing;
}

abbrev pub asserted : Option Addr → Addr → Result (Unit {0})
asserted none sender = err (generic_err "Caller is not admin")
asserted (some admin) sender =
    if str_eq admin sender then ok tt else err (generic_err "Caller is not admin")

abbrev pub updated : Option Addr → Addr → Option Addr → Result (Option Addr)
updated none sender new = err (generic_err "Caller is not admin")
updated (some admin) sender new =
    if str_eq admin sender then ok new else err (generic_err "Caller is not admin")

abbrev pub canonical : Bytes
canonical = to_be_bytes 20 77

-- A position-open instruction with one transfer, of sequence 7.
abbrev pub opening : StrategyInstructionInfo
opening = record { position_id = 5; strategy_chain_id = 3; token_transfer_sequences = 7 ∷ [] }

abbrev vaa_of : ℕ → Bytes → Bytes → ParsedVaa
vaa_of sequence payload hash = record {
  version = 1;
  guardian_set_index = 0;
  timestamp = 0;
  nonce = 0;
  len_signers = 1;
  emitter_chain = 2;
  emitter_address = to_be_bytes 32 99;
  sequence = sequence;
  consistency_level = 1;
  payload = payload;
  hash = hash;
}

abbrev pub instruction_vaa : ParsedVaa
instruction_vaa =
    vaa_of 4 (strategy_bytes 0 opening ++ (data_bytes codec none ++ to_be_bytes 8 0)) (9 ∷ 9 ∷ [])

-- A transfer of 1000 units of a native token, 10 of them a fee.
abbrev pub transfer_vaa : ParsedVaa
transfer_vaa =
    vaa_of 7
      (1
        ∷ (to_be_bytes 32 1000
            ++ ((1 ∷ to_be_bytes 31 0x75757364)
                ++ (to_be_bytes 2 3
                    ++ (extend_terra_address_to_32 canonical
                        ++ (to_be_bytes 2 3 ++ to_be_bytes 32 10))))))
      (8 ∷ 8 ∷ [])

abbrev verify : Bytes → Result ParsedVaa
verify [] = err (generic_err "invalid VAA")
verify (b ∷ bs) = if b == 1 then ok instruction_vaa else ok transfer_vaa

-- `Uint128 * Decimal`, rounded down, where it fits.
abbrev pub times : ℕ → ℕ → Result ℕ
times amount rate =
    if ltb (amount * rate / 10 ^ 18) (2 ^ 128) then ok (amount * rate / 10 ^ 18) else panic

abbrev pub host : Host
host = record {
  addr_validate = λ a. ok a;
  addr_canonicalize = λ a. ok canonical;
  addr_humanize = λ b. ok "token";
  from_utf8 = λ b. ok "uusd";
  codec = codec;
  assert_admin = asserted;
  execute_update_admin = updated;
  assert_sent_native_token_balance = λ asset info. ok tt;
  query_allowance = λ contract owner spender. ok 500;
  verify_vaa = λ core vaa time. verify vaa;
  query_sequence = λ core key. ok (some 10);
  mul_decimal = times;
}

abbrev pub env : Env
env = record {
  contract_address = "manager";
  block_time = 100;
  block_time_nanos = 100_000_000_000;
  block_height = 5;
}

abbrev pub from : Addr → MessageInfo
from sender = record { sender = sender; funds = [] }
