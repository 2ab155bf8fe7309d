-- ===== src/ByteUtil/RoundTrip.antt =====
-- Numbers and their big-endian bytes, and slices of what was written.
use position_managers.Prelude.{
  ℕ, zero, suc, ◌+◌, ◌*◌, ◌/◌, ◌%◌, ◌^◌, ◌<◌, ◌≡◌, refl, ◌∙◌, List, [], ◌∷◌, ◌++◌, arith, length,
  length-append, take-append, drop-append, All,
}
use position_managers.Cosmwasm.{Bytes, ok}
use position_managers.ByteUtil.{
  to_be_bytes, from_be, from_be_bytes, split_at, slice, get_be, get_address,
  extend_terra_address_to_32, twelve_zeros,
}
use native.Mathlib.Nat.{pow-suc}

pub length-to_be_bytes : (w n : ℕ) → length (to_be_bytes w n) ≡ w
unfolding to_be_bytes
length-to_be_bytes zero n = refl
length-to_be_bytes (suc w) n =
    omega (
      arith,
      length-append (to_be_bytes w (n / 256)) (n % 256 ∷ []),
      length-to_be_bytes w (n / 256),
    )

from_be-append :
    (acc : ℕ) (xs : Bytes) (b : ℕ) → from_be acc (xs ++ (b ∷ [])) ≡ from_be acc xs * 256 + b
unfolding from_be
from_be-append acc [] b = refl
from_be-append acc (x ∷ xs) b = from_be-append (acc * 256 + x) xs b

-- Reading back a number that fits its `w` bytes.
pub from_be_bytes-to_be_bytes : (w n : ℕ) → n < 256 ^ w → from_be_bytes (to_be_bytes w n) ≡ n
unfolding to_be_bytes from_be_bytes
from_be_bytes-to_be_bytes zero n h = omega arith
from_be_bytes-to_be_bytes (suc w) n h =
    from_be-append 0 (to_be_bytes w (n / 256)) (n % 256)
    ∙ omega (arith, from_be_bytes-to_be_bytes w (n / 256) (omega (arith, pow-suc 256 w)))

pub All-append {ℓ κ} :
    {A : Type ℓ} (P : A → Type κ) (xs ys : List A) → All P xs → All P ys → All P (xs ++ ys)
All-append P [] ys h k = k
All-append P (x ∷ xs) ys h k = (h.0, All-append P xs ys h.1 k)

-- What is written are bytes.
pub to_be_bytes-IsByte : (w n : ℕ) → All (λ b. b < 256) (to_be_bytes w n)
unfolding to_be_bytes
to_be_bytes-IsByte zero n = tt
to_be_bytes-IsByte (suc w) n =
    All-append (λ b. b < 256) (to_be_bytes w (n / 256)) (n % 256 ∷ [])
      (to_be_bytes-IsByte w (n / 256)) (omega arith, tt)

pub split_at-append : (xs ys : Bytes) (n : ℕ) → length xs ≡ n → split_at (xs ++ ys) n ≡ ok (xs, ys)
unfolding split_at
split_at-append xs ys n h =
    ground (arith, length-append xs ys, take-append xs ys n h, drop-append xs ys n h)

-- A slice finds what was written at its place.
pub slice-append :
    (front middle back : Bytes) (index n : ℕ)
    → length front ≡ index
    → length middle ≡ n
    → slice (front ++ (middle ++ back)) index n ≡ ok middle
unfolding slice
slice-append front middle back index n hf hm = ground (
  arith,
  length-append front (middle ++ back),
  length-append middle back,
  drop-append front (middle ++ back) index hf,
  take-append middle back n hm,
)

-- A number written at `index` in `w` bytes is read there.
pub get_be-append :
    (front back : Bytes) (index w n : ℕ)
    → length front ≡ index
    → n < 256 ^ w
    → get_be (front ++ (to_be_bytes w n ++ back)) index w ≡ ok n
unfolding get_be
get_be-append front back index w n hf hn = rw (
  slice-append front (to_be_bytes w n) back index w hf (length-to_be_bytes w n),
  from_be_bytes-to_be_bytes w n hn,
)

-- A canonical Terra address is the last 20 of the 32 bytes that it is extended to.
pub get_address-extend_terra_address_to_32 :
    (addr back : Bytes)
    → length addr ≡ 20
    → (length (extend_terra_address_to_32 addr) ≡ 32)
      × (get_address (extend_terra_address_to_32 addr ++ back) 0 ≡ ok addr)
unfolding get_address extend_terra_address_to_32
get_address-extend_terra_address_to_32 addr back h = (
  omega (arith, length-append twelve_zeros addr),
  (slice-append twelve_zeros addr back 12 20 refl h),
)
