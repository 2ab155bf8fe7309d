-- ===== src/Cosmwasm.antt =====
-- The vocabulary that every contract takes from cosmwasm_std: results, addresses, coins, the call's
-- sender and environment, and the integer type Uint128.
use position_managers.Prelude.{
  ◌≤◌, arith, ℕ, ◌+◌, ◌-◌, ◌*◌, ◌^◌, ◌≡◌, refl, String, Bool, true, false, not, Option, none, some,
  List, ltb, leb, if◌then◌else◌,
}

-- An address or a denomination is a text; a `Binary` or a byte slice is a list of bytes.
abbrev pub Addr : Type 0
Addr = String

abbrev pub Bytes : Type 0
Bytes = List ℕ

-- `other` carries the message of an error raised by code outside this repository.
pub data StdError : Type 0 where
  generic_err : String → StdError
  invalid_data_size : ℕ → ℕ → StdError
  parse_err : String → String → StdError
  not_found : StdError
  overflow : StdError
  other : String → StdError

-- `StdResult`, with `panic` for an `unwrap` of nothing, a slice out of range and an overflow.
pub data Result {ℓ} (A : Type ℓ) : Type ℓ where
  ok : A → Result A
  err : StdError → Result A
  panic : Result A

infixl 5 ◌>>=◌ ◌>>◌
abbrev pub ◌>>=◌ {ℓ κ} : {A : Type ℓ} {B : Type κ} → Result A → (A → Result B) → Result B
panic >>= next = panic
err x >>= next = err x
ok v >>= next = next v

abbrev pub ◌>>◌ {ℓ} : {B : Type ℓ} → Result (Unit {0}) → Result B → Result B
m >> k = m >>= λ _. k

-- `if b { return Err(e) }`
abbrev pub fail_if : Bool → StdError → Result (Unit {0})
fail_if true e = err e
fail_if false e = ok tt

-- `Item::load` and `Map::load`: a missing value is an error.
abbrev pub load {ℓ} : {A : Type ℓ} → Option A → Result A
load none = err not_found
load (some a) = ok a

-- `o.unwrap()`
abbrev pub unwrap {ℓ} : {A : Type ℓ} → Option A → Result A
unwrap none = panic
unwrap (some a) = ok a

-- `r.is_ok()`
abbrev pub is_ok {ℓ} : {A : Type ℓ} → Result A → Bool
is_ok (ok a) = true
is_ok (err e) = false
is_ok panic = false

pub ok-injective {ℓ} : {A : Type ℓ} {a b : A} → ok a ≡ ok b → a ≡ b
ok-injective e = cc

-- A successful chain: each step succeeded.
pub >>=-eq-ok {ℓ κ} :
    {A : Type ℓ} {B : Type κ} {result : B} (m : Result A) (next : A → Result B)
    → (m >>= next) ≡ ok result
    → (v : A) × (m ≡ ok v) × (next v ≡ ok result)
>>=-eq-ok panic next e = cc
>>=-eq-ok (err x) next e = cc
>>=-eq-ok (ok v) next e = (v, refl, e)

-- The same, handed to what follows from it; and for a guard in front of a chain.
pub chain {ℓ κ ι} :
    {A : Type ℓ} {B : Type κ} {C : Type ι} (m : Result A) (f : A → Result B) {b : B}
    → (m >>= f) ≡ ok b
    → ((a : A) → m ≡ ok a → f a ≡ ok b → C)
    → C
chain (ok a) f h k = k a refl h
chain (err e) f h k = absurd (cc)
chain panic f h k = absurd (cc)

pub guarded-elim {ℓ ι} :
    {A : Type ℓ} {C : Type ι} (b : Bool) (x : StdError) (rest : Result A) {a : A}
    → (fail_if b x >> rest) ≡ ok a
    → (b ≡ false → rest ≡ ok a → C)
    → C
guarded-elim true x rest e k = absurd (cc)
guarded-elim false x rest e k = k refl e

-- The two ways a conditional result succeeds.
pub branch {ℓ ι} :
    {A : Type ℓ} {C : Type ι} (b : Bool) (x y : Result A) {a : A}
    → (if b then x else y) ≡ ok a
    → (b ≡ true → x ≡ ok a → C)
    → (b ≡ false → y ≡ ok a → C)
    → C
branch true x y e k l = k refl e
branch false x y e k l = l refl e

-- What a look-up that succeeds has found, and what a negated test that failed says.
pub load-eq-ok {ℓ} : {A : Type ℓ} (o : Option A) {a : A} → load o ≡ ok a → o ≡ some a
load-eq-ok none e = cc
load-eq-ok (some a) e = cc

pub not-eq-false : (b : Bool) → not b ≡ false → b ≡ true
not-eq-false true e = refl
not-eq-false false e = cc

pub record Coin : Type 0 where
  pub denom : String
  pub amount : ℕ

pub record MessageInfo : Type 0 where
  pub sender : Addr
  pub funds : List Coin

-- `env.contract.address`, `env.block.time` in seconds and in nanoseconds, and `env.block.height`.
pub record Env : Type 0 where
  pub contract_address : Addr
  pub block_time : ℕ
  pub block_time_nanos : ℕ
  pub block_height : ℕ

-- `checked_add` of u64 and u128, and the operators of Uint128, which panic.
abbrev pub checked_add : ℕ → ℕ → ℕ → Result ℕ
checked_add bits a b = if ltb (a + b) (2 ^ bits) then ok (a + b) else err overflow

abbrev pub add_128 : ℕ → ℕ → Result ℕ
add_128 a b = if ltb (a + b) (2 ^ 128) then ok (a + b) else panic

abbrev pub sub_128 : ℕ → ℕ → Result ℕ
sub_128 a b = if leb b a then ok (a - b) else panic

abbrev pub mul_128 : ℕ → ℕ → Result ℕ
mul_128 a b = if ltb (a * b) (2 ^ 128) then ok (a * b) else panic

pub add_128-eq : (a b c : ℕ) → add_128 a b ≡ ok c → c ≡ a + b
add_128-eq a b c e = ground arith

pub sub_128-eq : (a b c : ℕ) → sub_128 a b ≡ ok c → (c ≡ a - b) × (b ≤ a)
sub_128-eq a b c e = ground arith
