-- ===== src/Examples/Wire.antt =====
-- The wire format at concrete instructions.
use position_managers.Prelude.{◌≡◌, refl, none, some, [], ◌∷◌, ◌++◌, arith, length}
use position_managers.Cosmwasm.{Bytes, ok}
use position_managers.ByteUtil.{
  to_be_bytes, from_be_bytes, get_u8, get_u16, get_u64, get_bytes32, get_address,
  extend_terra_address_to_32, split_at,
}
use position_managers.ByteUtil.RoundTrip.{
  get_address-extend_terra_address_to_32, length-to_be_bytes,
}
use position_managers.Instruction.{
  position_open_instruction, execute_strategy_instruction, serialize, deserialize, strategy_bytes,
  data_bytes, counted,
}
use position_managers.Instruction.RoundTrip.{Base64Laws, received, deserialize-serialize}
use position_managers.Instruction.Layout.{ReadsSwap, serialize_disbursement}
use position_managers.Examples.Data.{codec, opening, closing, canonical}

codec-Base64Laws : Base64Laws codec
codec-Base64Laws = record {
  decodes = λ b. refl;
  empty_text = refl;
  text_not_empty = λ x b. omega arith;
}

get_address-extend_terra_address_to_32_example :
    (length (extend_terra_address_to_32 canonical) ≡ 32)
    × (get_address (extend_terra_address_to_32 canonical ++ (4 ∷ [])) 0 ≡ ok canonical)
get_address-extend_terra_address_to_32_example =
    get_address-extend_terra_address_to_32 canonical (4 ∷ []) (length-to_be_bytes 20 77)

-- A payload of two bytes: the instruction is read back whole.
abbrev open_bytes : Bytes
open_bytes = strategy_bytes 0 opening ++ (data_bytes codec (some (6 ∷ 7 ∷ [])) ++ to_be_bytes 8 1)

deserialize-serialize_example :
    deserialize codec open_bytes
    ≡ received (position_open_instruction opening 1 (some (6 ∷ 7 ∷ [])))
unfolding serialize
deserialize-serialize_example =
    deserialize-serialize codec (position_open_instruction opening 1 (some (6 ∷ 7 ∷ []))) open_bytes
      codec-Base64Laws (omega arith) refl

-- An action that closes a position is read back too.
execute_round_trip :
    deserialize codec (strategy_bytes 1 opening ++ counted (1 ∷ 2 ∷ []))
    ≡ ok (execute_strategy_instruction opening closing)
unfolding deserialize strategy_bytes counted to_be_bytes from_be_bytes split_at
execute_round_trip = refl

-- The disbursement of the contract's own test, with sequence 10 to chain 5.
abbrev recipient : Bytes
recipient = to_be_bytes 32 0x0101

abbrev disbursement : Bytes
disbursement = 0 ∷ 2 ∷ (to_be_bytes 8 10 ++ (to_be_bytes 2 5 ++ (recipient ++ [])))

serialize_disbursement_example :
    (get_u8 disbursement 0 ≡ ok 0)
    × (get_u8 disbursement 1 ≡ ok 2)
    × (get_u64 disbursement 2 ≡ ok 10)
    × (get_u16 disbursement 10 ≡ ok 5)
    × (get_bytes32 disbursement 12 ≡ ok recipient)
    × ReadsSwap none disbursement
unfolding serialize
serialize_disbursement_example =
    serialize_disbursement codec 10 5 recipient none disbursement (omega arith) (omega arith)
      (length-to_be_bytes 32 0x0101) tt refl
