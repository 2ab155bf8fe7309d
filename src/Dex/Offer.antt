-- ===== src/Dex/Offer.antt =====
-- The offer that the binary search finds, and what offers return.
use native.Mathlib.Nat.{
  mul-le-mul, mul_assoc, mul-le-mul_right, mul-le-mul_left, div-le_of_le-mul, le-div_iff_mul-le,
  div-mul-le_self,
}
use position_managers.Prelude.{
  lt→ltb, ltb-eq-false, ℕ, ◌+◌, ◌-◌, ◌*◌, ◌/◌, ◌^◌, ◌≤◌, ◌<◌, ◌≡◌, refl, ◌⊎◌, inl, inr, false, ltb,
  leb, ltb→lt, arith,
}
use position_managers.Cosmwasm.{ok, ◌>>=◌}
use position_managers.Dex.{
  Decimal256, Decimal256Laws, sub_256, mul_256, simulated_return_amount, uint128_max,
  compute_terraswap_offer_amount,
}
use position_managers.Dex.Search.{add_256_ok, width, IsLeast, search-IsLeast}

-- The ask pool that a swap leaves, as a decimal, and what is returned of the rest.
unfoldable pub kept : ℕ → ℕ → ℕ → ℕ
kept ask_pool offer_pool offer = offer_pool * ask_pool * 10 ^ 18 / (offer_pool + offer)

unfoldable pub net : ℕ → ℕ → ℕ
net ask_pool k =
    1 * (ask_pool * 10 ^ 18 / 1 - k) / 10 ^ 18
    - 1 * (ask_pool * 10 ^ 18 / 1 - k) / 10 ^ 18 * (3 * 10 ^ 18 / 1000) / 10 ^ 18

pub kept-le :
    (ask_pool offer_pool offer : ℕ)
    → 0 < offer_pool
    → kept ask_pool offer_pool offer ≤ ask_pool * 10 ^ 18
unfolding kept
kept-le a p x h =
    div-le_of_le-mul (p + x)
      (rw (mul_assoc p a (10 ^ 18)) (mul-le-mul_right (a * 10 ^ 18) (omega arith)))

pub kept-antitone :
    (ask_pool offer_pool x y : ℕ)
    → 0 < offer_pool
    → x ≤ y
    → kept ask_pool offer_pool y ≤ kept ask_pool offer_pool x
unfolding kept
kept-antitone a p x y h le = (le-div_iff_mul-le (omega arith)).1 (
    let fits = div-mul-le_self (p * a * 10 ^ 18) (p + y) in
    let larger = mul-le-mul_left (p * a * 10 ^ 18 / (p + y)) (add_le le) in omega arith)
  where
    add_le : x ≤ y → p + x ≤ p + y
    add_le q = omega arith

pub net-antitone : (a k l : ℕ) → k ≤ l → net a l ≤ net a k
unfolding net
net-antitone a k l h = omega arith

sub_256_ok : (a b : ℕ) → b ≤ a → sub_256 a b ≡ ok (a - b)
sub_256_ok a b h = ground arith

leb-below : (a b : ℕ) → b < a → leb a b ≡ false
leb-below a b h = ground arith

le_lt : {a b c : ℕ} → a ≤ b → b < c → a < c
le_lt h h' = omega arith

mul_256_ok : (a b : ℕ) → a < 2 ^ 128 → b < 2 ^ 128 → mul_256 a b ≡ ok (a * b)
mul_256_ok a b ha hb =
    below_ok (
      mul-le-mul {n₁ = a} {m₁ = b} {n₂ = 2 ^ 128 - 1} {m₂ = 2 ^ 128 - 1} (omega arith)
        (omega arith))
  where
    below_ok : a * b ≤ (2 ^ 128 - 1) * (2 ^ 128 - 1) → mul_256 a b ≡ ok (a * b)
    below_ok h = ground arith

module _ (d : Decimal256) (laws : Decimal256Laws d) (ask_pool offer_pool : ℕ)
    (some_offer : 0 < offer_pool) (offer_fits : offer_pool < 2 ^ 128)
    (ask_fits : ask_pool < 2 ^ 128) where
  pub simulated-eq :
      (offer : ℕ)
      → offer < 2 ^ 128
      → simulated_return_amount d ask_pool offer_pool (offer_pool * ask_pool) offer
        ≡ ok (net ask_pool (kept ask_pool offer_pool offer))
  unfolding simulated_return_amount net kept
  simulated-eq offer fits =
      let bound = kept-le ask_pool offer_pool offer some_offer in
      rw
        (
          laws.ratio 3 1000 (omega arith) (omega arith),
          laws.ratio ask_pool 1 (omega arith) (omega arith),
          add_256_ok offer_pool offer (omega arith),
          laws.ratio (offer_pool * ask_pool) (offer_pool + offer) (omega arith) (in_range bound),
          laws.difference (ask_pool * 10 ^ 18 / 1) (kept ask_pool offer_pool offer) (whole bound),
          laws.product 1 (ask_pool * 10 ^ 18 / 1 - kept ask_pool offer_pool offer) (omega arith),
          laws.product (1 * (ask_pool * 10 ^ 18 / 1 - kept ask_pool offer_pool offer) / 10 ^ 18)
              (3 * 10 ^ 18 / 1000) (omega arith),
          sub_256_ok (1 * (ask_pool * 10 ^ 18 / 1 - kept ask_pool offer_pool offer) / 10 ^ 18)
              (1
                * (ask_pool * 10 ^ 18 / 1 - kept ask_pool offer_pool offer)
                / 10 ^ 18
                * (3 * 10 ^ 18 / 1000)
                / 10 ^ 18)
              (omega arith),
        )
        refl
    where
      in_range :
          kept ask_pool offer_pool offer ≤ ask_pool * 10 ^ 18
          → kept ask_pool offer_pool offer < 2 ^ 256
      in_range b = omega arith

      whole :
          kept ask_pool offer_pool offer ≤ ask_pool * 10 ^ 18
          → kept ask_pool offer_pool offer ≤ ask_pool * 10 ^ 18 / 1
      whole b = omega arith

  -- What an offer returns, by the simulation.
  Returns : ℕ → ℕ → Type 0
  Returns offer amount =
      simulated_return_amount d ask_pool offer_pool (offer_pool * ask_pool) offer ≡ ok amount

  -- The least offer that returns enough, or the largest number if no smaller one does.
  pub IsLeastOffer : ℕ → ℕ → Type 0
  IsLeastOffer ask_amount r =
      (r ≤ uint128_max)
      × ((offer : ℕ) → offer < r → (amount : ℕ) × Returns offer amount × (amount < ask_amount))
      × ((r ≡ uint128_max) ⊎ ((amount : ℕ) × Returns r amount × (ask_amount ≤ amount)))

  -- For pools that fit a Uint128, the offered one not empty, and an amount below the ask pool, the search ends and
  -- finds an offer. Every smaller offer returns less than the amount asked for, and the offer itself
  -- returns enough, unless it is the largest Uint128. The decimal arithmetic is as documented.
  pub compute_terraswap_offer_amount-IsLeastOffer :
      (ask_amount : ℕ)
      → ask_amount < ask_pool
      → (r : ℕ) × (compute_terraswap_offer_amount d ask_pool offer_pool ask_amount ≡ ok r)
        × IsLeastOffer ask_amount r
  unfolding compute_terraswap_offer_amount IsLeastOffer Returns IsLeast width
  compute_terraswap_offer_amount-IsLeastOffer ask_amount below =
      let value : ℕ → ℕ = λ x. net ask_pool (kept ask_pool offer_pool x) in
      let (r, found, (le, shorter, border)) =
        search-IsLeast
          (λ offer_amount.
            simulated_return_amount d ask_pool offer_pool (offer_pool * ask_pool) offer_amount
            >>= λ returned. ok (ltb returned ask_amount))
          (λ x. ltb (value x) ask_amount) uint128_max (omega arith)
          (λ x h. rw (simulated-eq x (omega arith)) refl)
          (λ x y xy h short. lt→ltb (value x) ask_amount (
            le_lt
              (net-antitone ask_pool (kept ask_pool offer_pool y) (kept ask_pool offer_pool x)
                (kept-antitone ask_pool offer_pool x y some_offer xy))
              (ltb→lt (value y) ask_amount short)))
          128 0 uint128_max (omega arith) (omega arith) (omega arith) (λ x h. absurd (omega arith))
          (inl refl) in
      (
        r,
        rw
            (
              leb-below ask_pool ask_amount below,
              mul_256_ok offer_pool ask_pool offer_fits ask_fits,
              found,
              laws.narrow r (omega arith),
            )
            refl,
        (
          le,
          (λ offer h. (
            value offer,
            simulated-eq offer (omega arith),
            ltb→lt (value offer) ask_amount (shorter offer h),
          )),
          (elim border [
            | inl top ↦ inl top
            | inr enough ↦
                inr
                  (value r, simulated-eq r (omega arith), ltb-eq-false (value r) ask_amount enough)
          ]),
        ),
      )
