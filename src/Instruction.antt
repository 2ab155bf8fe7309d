-- ===== src/Instruction.antt =====
-- terra_contracts/packages/aperture_common/src/instruction.rs: the wire format of the instructions
-- that Aperture managers on different chains send each other.
pub mod RoundTrip
pub mod Layout
use position_managers.Prelude.{
  ℕ, zero, suc, ◌%◌, ◌^◌, Option, none, some, List, [], ◌∷◌, ◌++◌, Bool, true, false, not, ◌&&◌,
  ◌==◌, ltb, if◌then◌else◌, length,
}
use position_managers.Cosmwasm.{
  Bytes, Result, ok, err, panic, ◌>>=◌, ◌>>◌, fail_if, StdError, generic_err, invalid_data_size,
}
use position_managers.Common.{
  SwapAndDisburseInfo, Action, open_position, close_position, increase_position, decrease_position,
}
use position_managers.ByteUtil.{to_be_bytes, from_be_bytes, split_at, split_first}

pub record StrategyInstructionInfo : Type 0 where
  pub position_id : ℕ
  pub strategy_chain_id : ℕ
  pub token_transfer_sequences : List ℕ

pub data ApertureInstruction : Type 0 where
  position_open_instruction : StrategyInstructionInfo → ℕ → Option Bytes → ApertureInstruction
  execute_strategy_instruction : StrategyInstructionInfo → Action → ApertureInstruction
  single_token_disbursement_instruction :
      ℕ → ℕ → Bytes → Option SwapAndDisburseInfo → ApertureInstruction

-- The text encodings of cosmwasm_std: base 64 (`to_base64().as_bytes()`, and `from_base64` of
-- `str::from_utf8`), and the JSON form of an action (`to_binary`, `from_binary`).
pub record Codec : Type 0 where
  pub to_base64 : Bytes → Bytes
  pub from_base64 : Bytes → Result Bytes
  pub to_binary : Action → Result Bytes
  pub from_binary : Bytes → Result Action

-- `APERTURE_INSTRUCTION_VERSION` of constants.rs, and the instruction types.
abbrev pub instruction_version : ℕ
instruction_version = 0

abbrev pub type_position_open : ℕ
type_position_open = 0

abbrev pub type_execute_strategy : ℕ
type_execute_strategy = 1

abbrev pub type_single_token_disbursement : ℕ
type_single_token_disbursement = 2

-- `as u32`
abbrev pub as_u32 : ℕ → ℕ
as_u32 n = n % 2 ^ 32

unfoldable pub sequence_bytes : List ℕ → Bytes
sequence_bytes [] = []
sequence_bytes (s ∷ rest) = to_be_bytes 8 s ++ sequence_bytes rest

-- Version, type, position, chain, and the sequences with their number.
unfoldable pub strategy_bytes : ℕ → StrategyInstructionInfo → Bytes
unfolding sequence_bytes
strategy_bytes type i =
    (instruction_version ∷ type ∷ [])
    ++ (to_be_bytes 16 i.position_id
        ++ (to_be_bytes 2 i.strategy_chain_id
            ++ (to_be_bytes 4 (as_u32 (length i.token_transfer_sequences))
                ++ sequence_bytes i.token_transfer_sequences)))

-- A text with its length in front.
unfoldable pub counted : Bytes → Bytes
counted encoded = to_be_bytes 4 (as_u32 (length encoded)) ++ encoded

unfoldable pub data_bytes : Codec → Option Bytes → Bytes
unfolding counted
data_bytes c none = to_be_bytes 4 0
data_bytes c (some payload) = counted (c.to_base64 payload)

unfoldable pub swap_bytes : Option SwapAndDisburseInfo → Result Bytes
swap_bytes none = ok []
swap_bytes (some swap) = do
  fail_if (not (length swap.desired_token_addr == 32))
      (generic_err "invalid desired token address length")
  ok (swap.desired_token_addr ++ to_be_bytes 32 swap.minimum_amount)

unfoldable pub serialize : Codec → ApertureInstruction → Result Bytes
unfolding strategy_bytes data_bytes swap_bytes
serialize c (position_open_instruction i strategy_id payload) =
    ok (strategy_bytes type_position_open i ++ (data_bytes c payload ++ to_be_bytes 8 strategy_id))
serialize c (execute_strategy_instruction i action) = do
  json ← c.to_binary action
  ok (strategy_bytes type_execute_strategy i ++ counted (c.to_base64 json))
serialize c (single_token_disbursement_instruction sequence chain recipient swap_info) = do
  swap ← swap_bytes swap_info
  ok (
      (instruction_version ∷ type_single_token_disbursement ∷ [])
      ++ (to_be_bytes 8 sequence ++ (to_be_bytes 2 chain ++ (recipient ++ swap))))

-- The loop over the sequence numbers, and the bytes that it leaves.
unfoldable pub read_sequences : ℕ → Bytes → Result (List ℕ × Bytes)
read_sequences zero rest = ok ([], rest)
read_sequences (suc n) rest =
    split_at rest 8 >>= λ p. read_sequences n p.1 >>= λ q. ok (from_be_bytes p.0 ∷ q.0, q.1)

unfoldable pub read_strategy : Bytes → Result (StrategyInstructionInfo × Bytes)
unfolding read_sequences
read_strategy rest = do
  (position_id_bytes, rest₁) ← split_at rest 16
  (strategy_chain_bytes, rest₂) ← split_at rest₁ 2
  (num_token_transfers_bytes, rest₃) ← split_at rest₂ 4
  (sequences, rest₄) ← read_sequences (from_be_bytes num_token_transfers_bytes) rest₃
  ok (
    record {
      position_id = from_be_bytes position_id_bytes;
      strategy_chain_id = from_be_bytes strategy_chain_bytes;
      token_transfer_sequences = sequences;
    },
    rest₄,
  )

-- A length and that many bytes.
unfoldable pub read_counted : Bytes → Result (Bytes × Bytes)
read_counted rest = do
  (len_bytes, rest₁) ← split_at rest 4
  split_at rest₁ (from_be_bytes len_bytes)

unfoldable pub read_data : Codec → Bytes → Result (Option Bytes)
read_data c [] = ok none
read_data c (b ∷ bs) = do payload ← c.from_base64 (b ∷ bs); ok (some payload)

unfoldable pub deserialize_open :
    Codec → StrategyInstructionInfo → Bytes → Result ApertureInstruction
unfolding read_counted read_data
deserialize_open c i rest = do
  (encoded, rest₁) ← read_counted rest
  payload ← read_data c encoded
  fail_if (not (length rest₁ == 8)) (generic_err "invalid instruction payload length")
  ok (position_open_instruction i (from_be_bytes rest₁) payload)

unfoldable pub is_open_position : Action → Bool
is_open_position (open_position payload) = true
is_open_position (close_position recipient) = false
is_open_position (increase_position payload) = false
is_open_position (decrease_position proportion recipient) = false

unfoldable pub deserialize_execute :
    Codec → StrategyInstructionInfo → Bytes → Result ApertureInstruction
unfolding read_counted is_open_position
deserialize_execute c i rest = do
  (encoded, rest₁) ← read_counted rest
  json ← c.from_base64 encoded
  action ← c.from_binary json
  fail_if (not (length rest₁ == 0)) (generic_err "invalid instruction payload length")
  fail_if (is_open_position action)
      (generic_err "open-position action on an existing position is disallowed")
  ok (execute_strategy_instruction i action)

unfoldable pub deserialize : Codec → Bytes → Result ApertureInstruction
unfolding read_strategy deserialize_open deserialize_execute split_first
deserialize c payload = do
  (version, rest) ← split_first payload
  fail_if (not (version == instruction_version)) (generic_err "invalid or unsupported version")
  (type, rest₁) ← split_first rest
  fail_if (not (type == type_position_open) && not (type == type_execute_strategy))
      (generic_err "unsupported instruction type for deserialization")
  (i, rest₂) ← read_strategy rest₁
  if type == type_position_open then deserialize_open c i rest₂ else deserialize_execute c i rest₂
