-- ===== src/Examples/Swap.antt =====
-- Runs of the search for an offer: the pools of the contract's own test, and pools that cannot
-- return the amount once the commission is taken off.
use position_managers.Prelude.{
  ℕ, ◌-◌, ◌*◌, ◌/◌, ◌^◌, ◌<◌, ◌≤◌, ◌≡◌, refl, leb, ltb, if◌then◌else◌, arith,
}
use position_managers.Cosmwasm.{Result, ok, panic}
use position_managers.Dex.{
  Decimal256, Decimal256Laws, uint128_max, search, simulated_return_amount,
  compute_terraswap_offer_amount,
}
use position_managers.Dex.Offer.{IsLeastOffer, compute_terraswap_offer_amount-IsLeastOffer}

program : Unit {0}
unfolding compute_terraswap_offer_amount search simulated_return_amount
program = tt

-- A result that fits 256 bits.
abbrev fits : ℕ → Result ℕ
fits n = if ltb n (2 ^ 256) then ok n else panic

abbrev pub exact : Decimal256
exact = record {
  from_ratio = λ a b. fits (a * 10 ^ 18 / b);
  subtract = λ a b. if leb b a then ok (a - b) else panic;
  multiply = λ a r. fits (a * r / 10 ^ 18);
  to_uint128 = λ a. if ltb a (2 ^ 128) then ok a else panic;
}

fits-ok : (n : ℕ) → n < 2 ^ 256 → fits n ≡ ok n
fits-ok n h = ground arith

subtract-ok : (a b : ℕ) → b ≤ a → exact.subtract a b ≡ ok (a - b)
subtract-ok a b h = ground arith

narrow-ok : (a : ℕ) → a < 2 ^ 128 → exact.to_uint128 a ≡ ok a
narrow-ok a h = ground arith

pub exact-Decimal256Laws : Decimal256Laws exact
exact-Decimal256Laws = record {
  ratio = λ a b positive h. fits-ok (a * 10 ^ 18 / b) h;
  difference = subtract-ok;
  product = λ a r h. fits-ok (a * r / 10 ^ 18) h;
  narrow = narrow-ok;
}

-- No offer returns 998 of 1000 after a commission of 0.3%: the search ends at the largest number.
no_such_offer : compute_terraswap_offer_amount exact 1000 10 998 ≡ ok uint128_max
unfolding program
no_such_offer = refl

compute_terraswap_offer_amount-IsLeastOffer_example :
    (r : ℕ) × (compute_terraswap_offer_amount exact 135_713_121_545 241_215_454 1_231_231 ≡ ok r)
    × IsLeastOffer exact exact-Decimal256Laws 135_713_121_545 241_215_454
        (omega arith)
        (omega arith)
        (omega arith)
        1_231_231
        r
compute_terraswap_offer_amount-IsLeastOffer_example =
    compute_terraswap_offer_amount-IsLeastOffer exact exact-Decimal256Laws 135_713_121_545
      241_215_454 (omega arith) (omega arith) (omega arith) 1_231_231 (omega arith)
