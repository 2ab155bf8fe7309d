-- ===== src/ByteUtil.antt =====
-- terra_contracts/packages/aperture_common/src/byte_util.rs, and the big-endian conversions of
-- Rust's integers. A byte is a number below 256; a slice out of range panics.
pub mod RoundTrip
use position_managers.Prelude.{
  ℕ, zero, suc, ◌+◌, ◌*◌, ◌/◌, ◌%◌, Option, none, some, List, [], ◌∷◌, ◌++◌, leb, if◌then◌else◌,
  length, take, drop, ltb,
}
use position_managers.Cosmwasm.{Bytes, Result, ok, err, panic, ◌>>=◌}

-- `n.to_be_bytes()` of an integer of `w` bytes: the last byte holds the lowest eight bits.
unfoldable pub to_be_bytes : ℕ → ℕ → Bytes
to_be_bytes zero n = []
to_be_bytes (suc w) n = to_be_bytes w (n / 256) ++ (n % 256 ∷ [])

-- `uN::from_be_bytes(bytes)`
from_be : ℕ → Bytes → ℕ
from_be acc [] = acc
from_be acc (b ∷ bs) = from_be (acc * 256 + b) bs

unfoldable pub from_be_bytes : Bytes → ℕ
unfolding from_be
from_be_bytes bs = from_be 0 bs

-- `&data[index..index + n]`
unfoldable pub slice : Bytes → ℕ → ℕ → Result Bytes
slice bs index n = if leb (index + n) (length bs) then ok (take n (drop index bs)) else panic

-- `data[index]`
unfoldable pub get_u8 : Bytes → ℕ → Result ℕ
get_u8 [] index = panic
get_u8 (b ∷ bs) zero = ok b
get_u8 (b ∷ bs) (suc index) = get_u8 bs index

-- The unsigned number in the `n` bytes from `index` on.
unfoldable pub get_be : Bytes → ℕ → ℕ → Result ℕ
unfolding slice
get_be bs index n = do bytes ← slice bs index n; ok (from_be_bytes bytes)

unfoldable pub get_u16 : Bytes → ℕ → Result ℕ
unfolding get_be
get_u16 bs index = get_be bs index 2

unfoldable pub get_u32 : Bytes → ℕ → Result ℕ
unfolding get_be
get_u32 bs index = get_be bs index 4

unfoldable pub get_u64 : Bytes → ℕ → Result ℕ
unfolding get_be
get_u64 bs index = get_be bs index 8

unfoldable pub get_u128_be : Bytes → ℕ → Result ℕ
unfolding get_be
get_u128_be bs index = get_be bs index 16

unfoldable pub get_u256 : Bytes → ℕ → Result (ℕ × ℕ)
unfolding get_u128_be
get_u256 bs index = do hi ← get_u128_be bs index; lo ← get_u128_be bs (index + 16); ok (hi, lo)

unfoldable pub get_uint256 : Bytes → ℕ → Result ℕ
unfolding get_be
get_uint256 bs index = get_be bs index 32

-- The last 20 of 32 bytes.
unfoldable pub get_address : Bytes → ℕ → Result Bytes
unfolding slice
get_address bs index = slice bs (index + 12) 20

unfoldable pub get_bytes32 : Bytes → ℕ → Result Bytes
unfolding slice
get_bytes32 bs index = slice bs index 32

abbrev twelve_zeros : Bytes
twelve_zeros = 0 ∷ 0 ∷ 0 ∷ 0 ∷ 0 ∷ 0 ∷ 0 ∷ 0 ∷ 0 ∷ 0 ∷ 0 ∷ 0 ∷ []

unfoldable pub extend_terra_address_to_32 : Bytes → Bytes
extend_terra_address_to_32 addr = twelve_zeros ++ addr

-- `slice.split_at(n)`
unfoldable pub split_at : Bytes → ℕ → Result (Bytes × Bytes)
split_at bs n = if leb n (length bs) then ok (take n bs, drop n bs) else panic

-- `slice.split_first().unwrap()`
unfoldable pub split_first : Bytes → Result (ℕ × Bytes)
split_first [] = panic
split_first (b ∷ bs) = ok (b, bs)
