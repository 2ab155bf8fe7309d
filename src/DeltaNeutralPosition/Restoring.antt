-- ===== src/DeltaNeutralPosition/Restoring.antt =====
-- How contracts/delta_neutral_position/src/rebalance.rs brings a position back to neutral: where its
-- binary searches stop, and how fast a share of a pool grows.
pub mod Long
pub mod Short
use native.Mathlib.Nat.{mul-le-mul_left, mul-le-mul_right, div-le_of_le-mul, add-mul}
use position_managers.Prelude.{
  ℕ, ◌+◌, ◌*◌, ◌/◌, ◌^◌, ◌≤◌, ◌<◌, ◌≡◌, refl, sym, ◌⊎◌, inl, inr, Bool, true, false, leb, ltb,
  ltb→lt, ltb-eq-false, Bool-cases, arith,
}
use position_managers.Cosmwasm.{Result, ok}
use position_managers.DeltaNeutralPosition.Search.{search_leftmost, search_leftmost-border}

-- A number up to an end at which something turns: it has what is on the left just before the number,
-- unless that is the first, and what is on the right there, unless it is the end.
abbrev pub Turns : (ℕ → Type 0) → (ℕ → Type 0) → ℕ → ℕ → Type 0
Turns Left Right end r =
    ((r ≡ 0) ⊎ ((before : ℕ) × (r ≡ before + 1) × Left before)) × ((r ≡ end) ⊎ Right r)

module _ (test : ℕ → Result Bool) (Left Right : ℕ → Type 0) (end : ℕ)
    (passes : (x : ℕ) → test x ≡ ok true → Left x)
    (fails : (x : ℕ) → test x ≡ ok false → Right x) where
  pub search_leftmost-Turns :
      (n r : ℕ) → search_leftmost test n 0 end ≡ ok r → Turns Left Right end r
  search_leftmost-Turns n r e =
      search_leftmost-border test end
        (λ x. (x ≡ 0) ⊎ ((before : ℕ) × (x ≡ before + 1) × Left before)) (λ x. (x ≡ end) ⊎ Right x)
        (λ x h yes. inr (x, refl, passes x yes)) (λ x h no. inr (fails x no)) n 0 end r
        (omega arith) (omega arith) (inl refl) (inl refl) e

  -- All that is before a number has what is on the left, and all from it to the end the other.
  abbrev pub Splits : ℕ → Type 0
  Splits r = ((x : ℕ) → x < r → Left x) × ((x : ℕ) → r ≤ x → x < end → Right x)

  pub search_leftmost-Splits :
      (n r : ℕ)
      → ((x y : ℕ) → x ≤ y → y < end → Left y → Left x)
      → ((x y : ℕ) → x ≤ y → y < end → Right x → Right y)
      → search_leftmost test n 0 end ≡ ok r
      → Splits r
  search_leftmost-Splits n r down up e =
      search_leftmost-border test end (λ r. (x : ℕ) → x < r → Left x)
        (λ r. (x : ℕ) → r ≤ x → x < end → Right x)
        (λ y h yes x lt. down x y (omega arith) h (passes y yes))
        (λ y h no x le lt. up y x le lt (fails y no)) n 0 end r (omega arith) (omega arith)
        (λ x lt. absurd (omega arith)) (λ x le lt. absurd (omega arith)) e

-- A share of at most one of something grows by no more than the thing.
pub share_grows :
    (a d share : ℕ) → share ≤ 10 ^ 18 → (a + d) * share / 10 ^ 18 ≤ a * share / 10 ^ 18 + d
share_grows a d share small =
    let sum : (a + d) * share ≡ a * share + d * share = add-mul a d share in
    let part : d * share ≤ d * 10 ^ 18 = mul-le-mul_left d small in omega arith

-- A part of a whole is a share of at most one.
pub share_le : (part whole : ℕ) → part ≤ whole → part * 10 ^ 18 / whole ≤ 10 ^ 18
share_le part whole le = div-le_of_le-mul whole (mul-le-mul_right (10 ^ 18) le)

pub leb-eq-false : (a b : ℕ) → leb a b ≡ false → b < a
leb-eq-false a b h = ground arith

-- A search finds no more than its end.
pub search_leftmost-le :
    (test : ℕ → Result Bool) (n end r : ℕ) → search_leftmost test n 0 end ≡ ok r → r ≤ end
search_leftmost-le test n end r e =
    (search_leftmost-border test end (λ x. x ≤ end) (λ x. Unit {0}) (λ x h yes. omega arith)
      (λ x h no. tt) n 0 end r (omega arith) (omega arith) (omega arith) tt e).0
