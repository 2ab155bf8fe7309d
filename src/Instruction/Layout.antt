-- ===== src/Instruction/Layout.antt =====
-- The layout of a token disbursement, read back by the readers of byte_util.rs at the offsets that
-- instruction.rs documents.
use position_managers.Prelude.{
  ℕ, ◌^◌, ◌<◌, ◌≡◌, refl, sym, ap, ◌∙◌, Option, none, some, [], ◌∷◌, ◌++◌, arith, length,
  length-append, Bool-cases, inl, inr, ◌==◌,
}
use position_managers.Cosmwasm.{Bytes, ok, >>=-eq-ok, ok-injective}
use position_managers.Common.{SwapAndDisburseInfo}
use position_managers.ByteUtil.{
  to_be_bytes, slice, get_be, get_u8, get_u16, get_u64, get_uint256, get_bytes32,
}
use position_managers.ByteUtil.RoundTrip.{length-to_be_bytes, slice-append, get_be-append}
use position_managers.Instruction.{
  Codec, single_token_disbursement_instruction, serialize, swap_bytes, instruction_version,
  type_single_token_disbursement,
}
use mathlib.Core.List.{append_assoc, append-nil}

-- What stands behind the recipient.
abbrev pub ReadsSwap : Option SwapAndDisburseInfo → Bytes → Type 0
ReadsSwap none bytes = length bytes ≡ 44
ReadsSwap (some swap) bytes =
    (length bytes ≡ 108)
    × (get_bytes32 bytes 44 ≡ ok swap.desired_token_addr)
    × (get_uint256 bytes 76 ≡ ok swap.minimum_amount)

abbrev SwapFits : Option SwapAndDisburseInfo → Type 0
SwapFits none = Unit
SwapFits (some swap) = swap.minimum_amount < 2 ^ 256

ReadsSwap-some :
    (head : Bytes) (s : SwapAndDisburseInfo) (swap : Bytes)
    → length head ≡ 44
    → length s.desired_token_addr ≡ 32
    → s.minimum_amount < 2 ^ 256
    → s.desired_token_addr ++ to_be_bytes 32 s.minimum_amount ≡ swap
    → ReadsSwap (some s) (head ++ swap)
unfolding get_bytes32 get_uint256
ReadsSwap-some head s swap h hd hm e = rw (← e) (
  omega (
    arith,
    length-append head (s.desired_token_addr ++ to_be_bytes 32 s.minimum_amount),
    length-append s.desired_token_addr (to_be_bytes 32 s.minimum_amount),
    length-to_be_bytes 32 s.minimum_amount,
  ),
  slice-append head s.desired_token_addr (to_be_bytes 32 s.minimum_amount) 44 32 h hd,
  rw
      (
        sym (append_assoc head s.desired_token_addr (to_be_bytes 32 s.minimum_amount)),
        sym (append-nil (to_be_bytes 32 s.minimum_amount)),
      )
      (get_be-append (head ++ s.desired_token_addr) [] 76 32 s.minimum_amount
        (omega (arith, length-append head s.desired_token_addr)) (omega arith)),
)

ReadsSwap-append :
    (head : Bytes) (swap_info : Option SwapAndDisburseInfo) (swap : Bytes)
    → length head ≡ 44
    → SwapFits swap_info
    → swap_bytes swap_info ≡ ok swap
    → ReadsSwap swap_info (head ++ swap)
unfolding swap_bytes
ReadsSwap-append head none swap h fits e =
    rw (← ok-injective e) (omega (arith, length-append head []))
ReadsSwap-append head (some s) swap h fits e =
    elim (Bool-cases (length s.desired_token_addr == 32)) [
      | inl same ↦ ReadsSwap-some head s swap h (ground arith) fits (ok-injective (rw same at e))
      | inr other ↦ ground arith
    ]

-- The common part of a disbursement, with `rest` behind it.
module _ (sequence chain : ℕ) (recipient rest : Bytes) (hr : length recipient ≡ 32) where
  abbrev common_part : Bytes
  common_part =
      (instruction_version ∷ type_single_token_disbursement ∷ [])
      ++ (to_be_bytes 8 sequence ++ (to_be_bytes 2 chain ++ (recipient ++ rest)))

  reads_sequence : sequence < 2 ^ 64 → get_be common_part 2 8 ≡ ok sequence
  reads_sequence h =
      get_be-append (0 ∷ 2 ∷ []) (to_be_bytes 2 chain ++ (recipient ++ rest)) 2 8 sequence refl
        (omega arith)

  reads_chain : chain < 2 ^ 16 → get_be common_part 10 2 ≡ ok chain
  reads_chain h =
      get_be-append (0 ∷ 2 ∷ to_be_bytes 8 sequence) (recipient ++ rest) 10 2 chain
        (omega (arith, length-to_be_bytes 8 sequence)) (omega arith)

  front : Bytes
  front = to_be_bytes 8 sequence ++ to_be_bytes 2 chain

  length-front : length front ≡ 10
  unfolding front
  length-front = omega (
    arith,
    length-append (to_be_bytes 8 sequence) (to_be_bytes 2 chain),
    length-to_be_bytes 8 sequence,
    length-to_be_bytes 2 chain,
  )

  common_part-front : (0 ∷ 2 ∷ front) ++ (recipient ++ rest) ≡ common_part
  unfolding front
  common_part-front =
      ap (λ (t : Bytes). 0 ∷ 2 ∷ t)
        (append_assoc (to_be_bytes 8 sequence) (to_be_bytes 2 chain) (recipient ++ rest))

  reads_recipient : slice common_part 12 32 ≡ ok recipient
  reads_recipient =
      rw common_part-front at
        (slice-append (0 ∷ 2 ∷ front) recipient rest 12 32 (omega (arith, length-front)) hr)

  reads_swap :
      (swap_info : Option SwapAndDisburseInfo)
      → SwapFits swap_info
      → swap_bytes swap_info ≡ ok rest
      → ReadsSwap swap_info common_part
  reads_swap swap_info fits e =
      rw (append_assoc (0 ∷ 2 ∷ front) recipient rest ∙ common_part-front) at (
        ReadsSwap-append ((0 ∷ 2 ∷ front) ++ recipient) swap_info rest
          (omega (arith, length-append front recipient, length-front)) fits e)

-- A disbursement that is written holds, at the documented offsets, the version 0, the type 2, the
-- sequence, the recipient's chain and address, and the swap's token and least amount if there is
-- one, and nothing more: it has 44 bytes, or 108. The numbers fit their types and the recipient
-- has its 32 bytes.
pub serialize_disbursement :
    (c : Codec) (sequence chain : ℕ) (recipient : Bytes) (swap_info : Option SwapAndDisburseInfo)
    (bytes : Bytes)
    → sequence < 2 ^ 64
    → chain < 2 ^ 16
    → length recipient ≡ 32
    → SwapFits swap_info
    → serialize c (single_token_disbursement_instruction sequence chain recipient swap_info)
      ≡ ok bytes
    → (get_u8 bytes 0 ≡ ok 0)
      × (get_u8 bytes 1 ≡ ok 2)
      × (get_u64 bytes 2 ≡ ok sequence)
      × (get_u16 bytes 10 ≡ ok chain)
      × (get_bytes32 bytes 12 ≡ ok recipient)
      × ReadsSwap swap_info bytes
unfolding serialize get_u8 get_u16 get_u64 get_bytes32
serialize_disbursement c sequence chain recipient swap_info bytes hs hc hr fits e =
    let (swap, written, e') = >>=-eq-ok (swap_bytes swap_info) _ e in
    disbursement_fields swap bytes written (ok-injective e')
  where
    disbursement_fields :
        (swap bytes : Bytes)
        → swap_bytes swap_info ≡ ok swap
        → common_part sequence chain recipient swap hr ≡ bytes
        → (get_u8 bytes 0 ≡ ok 0)
          × (get_u8 bytes 1 ≡ ok 2)
          × (get_be bytes 2 8 ≡ ok sequence)
          × (get_be bytes 10 2 ≡ ok chain)
          × (slice bytes 12 32 ≡ ok recipient)
          × ReadsSwap swap_info bytes
    disbursement_fields swap bytes written e = rw (← e) (
      refl,
      refl,
      reads_sequence sequence chain recipient swap hr hs,
      reads_chain sequence chain recipient swap hr hc,
      reads_recipient sequence chain recipient swap hr,
      reads_swap sequence chain recipient swap hr swap_info fits written,
    )
