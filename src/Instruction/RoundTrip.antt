-- ===== src/Instruction/RoundTrip.antt =====
-- Reading with `deserialize` what `serialize` wrote.
use position_managers.Prelude.{
  ℕ, ◌^◌, ◌<◌, ◌≡◌, refl, ◌∙◌, Option, none, some, List, [], ◌∷◌, ◌++◌, arith, length, All,
  unwrap_or, if◌then◌else◌,
}
use position_managers.Cosmwasm.{Bytes, Result, ok, err, generic_err, >>=-eq-ok, ok-injective}
use position_managers.Common.{Action}
use position_managers.ByteUtil.{to_be_bytes, from_be_bytes, split_at}
use position_managers.ByteUtil.RoundTrip.{
  length-to_be_bytes, from_be_bytes-to_be_bytes, split_at-append,
}
use position_managers.Instruction.{
  Codec, StrategyInstructionInfo, ApertureInstruction, position_open_instruction,
  execute_strategy_instruction, single_token_disbursement_instruction, sequence_bytes,
  strategy_bytes, counted, data_bytes, serialize, read_sequences, read_strategy, read_counted,
  read_data, deserialize_open, deserialize_execute, deserialize, swap_bytes, is_open_position,
  as_u32, type_position_open, type_execute_strategy,
}
use mathlib.Core.List.{append_assoc, append-nil}

-- The fields fit the widths of their Rust types, and the number of sequences its u32.
pub record Fits (i : StrategyInstructionInfo) : Type 0 where
  pub position_id_fits : i.position_id < 2 ^ 128
  pub chain_fits : i.strategy_chain_id < 2 ^ 16
  pub sequences_fit : All (λ s. s < 2 ^ 64) i.token_transfer_sequences
  pub count_fits : length i.token_transfer_sequences < 2 ^ 32

split_at-to_be_bytes :
    (w n : ℕ) (rest : Bytes) → split_at (to_be_bytes w n ++ rest) w ≡ ok (to_be_bytes w n, rest)
split_at-to_be_bytes w n rest = split_at-append (to_be_bytes w n) rest w (length-to_be_bytes w n)

read_sequences-sequence_bytes :
    (ss : List ℕ) (rest : Bytes)
    → All (λ s. s < 2 ^ 64) ss
    → read_sequences (length ss) (sequence_bytes ss ++ rest) ≡ ok (ss, rest)
unfolding read_sequences sequence_bytes
read_sequences-sequence_bytes [] rest h = refl
read_sequences-sequence_bytes (s ∷ ss) rest h = rw (
  append_assoc (to_be_bytes 8 s) (sequence_bytes ss) rest,
  split_at-to_be_bytes 8 s (sequence_bytes ss ++ rest),
  read_sequences-sequence_bytes ss rest h.1,
  from_be_bytes-to_be_bytes 8 s (omega arith),
)

-- What `strategy_bytes` writes behind the version and the type.
abbrev strategy_body : StrategyInstructionInfo → Bytes
strategy_body i =
    to_be_bytes 16 i.position_id
    ++ (to_be_bytes 2 i.strategy_chain_id
        ++ (to_be_bytes 4 (as_u32 (length i.token_transfer_sequences))
            ++ sequence_bytes i.token_transfer_sequences))

strategy_body-append :
    (i : StrategyInstructionInfo) (rest : Bytes)
    → strategy_body i ++ rest
      ≡ to_be_bytes 16 i.position_id
        ++ (to_be_bytes 2 i.strategy_chain_id
            ++ (to_be_bytes 4 (as_u32 (length i.token_transfer_sequences))
                ++ (sequence_bytes i.token_transfer_sequences ++ rest)))
strategy_body-append i rest = simp append_assoc

count_bytes :
    (i : StrategyInstructionInfo)
    → Fits i
    → from_be_bytes (to_be_bytes 4 (as_u32 (length i.token_transfer_sequences)))
      ≡ length i.token_transfer_sequences
count_bytes i f =
    from_be_bytes-to_be_bytes 4 (as_u32 (length i.token_transfer_sequences)) (omega arith)
    ∙ omega (arith, f.count_fits)

read_strategy-strategy_body :
    (i : StrategyInstructionInfo) (rest : Bytes)
    → Fits i
    → read_strategy (strategy_body i ++ rest) ≡ ok (i, rest)
unfolding read_strategy
read_strategy-strategy_body i rest f = rw (
  strategy_body-append i rest,
  split_at-to_be_bytes 16 i.position_id _,
  split_at-to_be_bytes 2 i.strategy_chain_id _,
  split_at-to_be_bytes 4 (as_u32 (length i.token_transfer_sequences)) _,
  count_bytes i f,
  read_sequences-sequence_bytes i.token_transfer_sequences rest f.sequences_fit,
  from_be_bytes-to_be_bytes 16 i.position_id (omega (arith, f.position_id_fits)),
  from_be_bytes-to_be_bytes 2 i.strategy_chain_id (omega (arith, f.chain_fits)),
)

read_counted-counted :
    (encoded rest : Bytes)
    → length encoded < 2 ^ 32
    → read_counted (counted encoded ++ rest) ≡ ok (encoded, rest)
unfolding read_counted counted
read_counted-counted encoded rest h =
    rw
      (
        append_assoc (to_be_bytes 4 (as_u32 (length encoded))) encoded rest,
        split_at-to_be_bytes 4 (as_u32 (length encoded)) (encoded ++ rest),
        from_be_bytes-to_be_bytes 4 (as_u32 (length encoded)) (omega arith),
      )
      (split_at-append encoded rest _ (omega arith))

-- A payload with version 0 and a supported type reaches the reader of that type.
deserialize-open :
    (c : Codec) (i : StrategyInstructionInfo) (rest : Bytes)
    → Fits i
    → deserialize c (strategy_bytes type_position_open i ++ rest) ≡ deserialize_open c i rest
unfolding deserialize strategy_bytes
deserialize-open c i rest f = rw (read_strategy-strategy_body i rest f)

deserialize-execute :
    (c : Codec) (i : StrategyInstructionInfo) (rest : Bytes)
    → Fits i
    → deserialize c (strategy_bytes type_execute_strategy i ++ rest) ≡ deserialize_execute c i rest
unfolding deserialize strategy_bytes
deserialize-execute c i rest f = rw (read_strategy-strategy_body i rest f)

-- What cosmwasm_std documents of base 64: decoding undoes encoding, and only the empty payload has
-- the empty text.
pub record Base64Laws (c : Codec) : Type 0 where
  pub decodes : (b : Bytes) → c.from_base64 (c.to_base64 b) ≡ ok b
  pub empty_text : c.to_base64 [] ≡ []
  pub text_not_empty : (x : ℕ) (b : Bytes) → 0 < length (c.to_base64 (x ∷ b))

read_data_nonempty :
    (c : Codec) (encoded b : Bytes)
    → 0 < length encoded
    → c.from_base64 encoded ≡ ok b
    → read_data c encoded ≡ ok (some b)
unfolding read_data
read_data_nonempty c [] b h e = absurd (omega arith)
read_data_nonempty c (x ∷ xs) b h e = rw e

-- A text of length zero stands for no payload.
abbrev pub drop_empty : Option Bytes → Option Bytes
drop_empty none = none
drop_empty (some []) = none
drop_empty (some (x ∷ xs)) = some (x ∷ xs)

read_data-to_base64 :
    (c : Codec) (b : Bytes) → Base64Laws c → read_data c (c.to_base64 b) ≡ ok (drop_empty (some b))
unfolding read_data
read_data-to_base64 c [] laws = rw laws.empty_text
read_data-to_base64 c (x ∷ b) laws =
    read_data_nonempty c (c.to_base64 (x ∷ b)) (x ∷ b) (laws.text_not_empty x b)
      (laws.decodes (x ∷ b))

deserialize_open-data_bytes :
    (c : Codec) (i : StrategyInstructionInfo) (strategy_id : ℕ) (payload : Option Bytes)
    → Base64Laws c
    → strategy_id < 2 ^ 64
    → length (c.to_base64 (unwrap_or payload [])) < 2 ^ 32
    → deserialize_open c i (data_bytes c payload ++ to_be_bytes 8 strategy_id)
      ≡ ok (position_open_instruction i strategy_id (drop_empty payload))
unfolding deserialize_open data_bytes read_counted read_data
deserialize_open-data_bytes c i strategy_id none laws hs ht = rw (
  split_at-to_be_bytes 4 0 (to_be_bytes 8 strategy_id),
  from_be_bytes-to_be_bytes 4 0 (omega arith),
  split_at-append [] (to_be_bytes 8 strategy_id) 0 refl,
  length-to_be_bytes 8 strategy_id,
  from_be_bytes-to_be_bytes 8 strategy_id (omega arith),
)
deserialize_open-data_bytes c i strategy_id (some b) laws hs ht = rw (
  read_counted-counted (c.to_base64 b) (to_be_bytes 8 strategy_id) ht,
  read_data-to_base64 c b laws,
  length-to_be_bytes 8 strategy_id,
  from_be_bytes-to_be_bytes 8 strategy_id (omega arith),
)

-- What the receiver makes of an instruction, said without the bytes.
pub received : ApertureInstruction → Result ApertureInstruction
received (position_open_instruction i strategy_id payload) =
    ok (position_open_instruction i strategy_id (drop_empty payload))
received (execute_strategy_instruction i action) =
    if is_open_position action
    then err (generic_err "open-position action on an existing position is disallowed")
    else ok (execute_strategy_instruction i action)
received (single_token_disbursement_instruction sequence chain recipient swap_info) =
    err (generic_err "unsupported instruction type for deserialization")

-- The numbers fit their types and the texts their u32 lengths, and the JSON of the action at hand
-- is read back as that action.
abbrev pub FitsWire : Codec → ApertureInstruction → Type 0
FitsWire c (position_open_instruction i strategy_id payload) =
    Fits i × (strategy_id < 2 ^ 64) × (length (c.to_base64 (unwrap_or payload [])) < 2 ^ 32)
FitsWire c (execute_strategy_instruction i action) =
    Fits i
    × ((json : Bytes)
        → c.to_binary action ≡ ok json
        → (length (c.to_base64 json) < 2 ^ 32) × (c.from_binary json ≡ ok action))
FitsWire c (single_token_disbursement_instruction sequence chain recipient swap_info) = Unit

deserialize_execute-counted :
    (c : Codec) (i : StrategyInstructionInfo) (action : Action) (json : Bytes)
    → Base64Laws c
    → length (c.to_base64 json) < 2 ^ 32
    → c.from_binary json ≡ ok action
    → deserialize_execute c i (counted (c.to_base64 json))
      ≡ received (execute_strategy_instruction i action)
unfolding deserialize_execute received
deserialize_execute-counted c i action json laws ht e =
    rw (rw append-nil at (read_counted-counted (c.to_base64 json) [] ht), laws.decodes json, e)
      (ground arith)

-- Whatever `serialize` produces, `deserialize` turns into what `received` says: a position-open
-- instruction comes back whole, with an empty payload read as none; an execute instruction comes
-- back whole, or is refused if its action opens a position; a disbursement is refused. This holds
-- for a codec that obeys the laws of base 64 and an instruction whose parts fit the wire format.
pub deserialize-serialize :
    (c : Codec) (x : ApertureInstruction) (bytes : Bytes)
    → Base64Laws c
    → FitsWire c x
    → serialize c x ≡ ok bytes
    → deserialize c bytes ≡ received x
unfolding serialize received deserialize
deserialize-serialize c (position_open_instruction i strategy_id payload) bytes laws f e = rw (
  ← ok-injective e,
  deserialize-open c i (data_bytes c payload ++ to_be_bytes 8 strategy_id) f.0,
  deserialize_open-data_bytes c i strategy_id payload laws f.1 f.2,
)
deserialize-serialize c (execute_strategy_instruction i action) bytes laws f e =
    let (json, written, e') = >>=-eq-ok (c.to_binary action) _ e in
    rw (← ok-injective e', deserialize-execute c i (counted (c.to_base64 json)) f.0)
      (deserialize_execute-counted c i action json laws (f.1 json written).0 (f.1 json written).1)
deserialize-serialize c (single_token_disbursement_instruction sequence chain recipient swap_info)
      bytes laws f e =
    let (swap, written, e') = >>=-eq-ok (swap_bytes swap_info) _ e in rw (← ok-injective e')
