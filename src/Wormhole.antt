-- ===== src/Wormhole.antt =====
-- terra_contracts/packages/aperture_common/src/wormhole.rs: the parsed VAA, and the payloads of the
-- Wormhole token bridge.
use position_managers.Prelude.{ℕ, drop}
use position_managers.Cosmwasm.{Bytes, Result, ok, ◌>>=◌}
use position_managers.ByteUtil.{get_u8, get_u16, get_u256, get_bytes32}

pub record ParsedVaa : Type 0 where
  pub version : ℕ
  pub guardian_set_index : ℕ
  pub timestamp : ℕ
  pub nonce : ℕ
  pub len_signers : ℕ
  pub emitter_chain : ℕ
  pub emitter_address : Bytes
  pub sequence : ℕ
  pub consistency_level : ℕ
  pub payload : Bytes
  pub hash : Bytes

-- `Action::TRANSFER`
abbrev pub action_transfer : ℕ
action_transfer = 1

pub record TokenBridgeMessage : Type 0 where
  pub action : ℕ
  pub payload : Bytes

unfoldable pub deserialize_token_bridge_message : Bytes → Result TokenBridgeMessage
unfolding get_u8
deserialize_token_bridge_message bytes = do
  action ← get_u8 bytes 0
  ok (record { action = action; payload = drop 1 bytes })

pub record TransferInfo : Type 0 where
  pub amount : ℕ × ℕ
  pub token_address : Bytes
  pub token_chain : ℕ
  pub recipient : Bytes
  pub recipient_chain : ℕ
  pub fee : ℕ × ℕ

unfoldable pub deserialize_transfer_info : Bytes → Result TransferInfo
deserialize_transfer_info bytes = do
  amount ← get_u256 bytes 0
  token_address ← get_bytes32 bytes 32
  token_chain ← get_u16 bytes 64
  recipient ← get_bytes32 bytes 66
  recipient_chain ← get_u16 bytes 98
  fee ← get_u256 bytes 100
  ok (record {
    amount = amount;
    token_address = token_address;
    token_chain = token_chain;
    recipient = recipient;
    recipient_chain = recipient_chain;
    fee = fee;
  })
