-- ===== src/Dex/Search.antt =====
-- The binary search, and the border between too little and enough.
use position_managers.Prelude.{
  ltb-eq-false, ℕ, ◌+◌, ◌*◌, ◌/◌, ◌^◌, ◌≤◌, ◌<◌, ◌≡◌, ◌≢◌, zero, suc, refl, sym, ◌⊎◌, inl, inr,
  Bool, true, false, ltb, ltb→lt, arith, Bool-cases,
}
use position_managers.Cosmwasm.{Result, ok, ok-injective, chain, branch}
use position_managers.Dex.{add_256, search}

-- The widths that so many rounds can search.
unfoldable pub width : ℕ → ℕ
width zero = 1
width (suc n) = 2 * width n

pub add_256_ok : (a b : ℕ) → a + b < 2 ^ 256 → add_256 a b ≡ ok (a + b)
add_256_ok a b h = ground arith

ltb_irrefl : (a b : ℕ) → a ≡ b → ltb a b ≡ false
ltb_irrefl a b e = ground arith

module _ (too_little : ℕ → Result Bool) (short : ℕ → Bool) (top : ℕ) (in_range : top < 2 ^ 128)
    (decides : (x : ℕ) → x < top → too_little x ≡ ok (short x))
    (downward : (x y : ℕ) → x ≤ y → y < top → short y ≡ true → short x ≡ true) where
  -- The least number that is not short, or the top if all below it are.
  unfoldable pub IsLeast : ℕ → Type 0
  IsLeast r = (r ≤ top) × ((x : ℕ) → x < r → short x ≡ true) × ((r ≡ top) ⊎ (short r ≡ false))

  pub search-IsLeast :
      (n a b : ℕ)
      → a ≤ b
      → b ≤ top
      → b < a + width n
      → ((x : ℕ) → x < a → short x ≡ true)
      → (b ≡ top) ⊎ (short b ≡ false)
      → (r : ℕ) × (search too_little n a b ≡ ok r) × IsLeast r
  unfolding search width IsLeast
  search-IsLeast zero a b le top_le wide below at_b =
      let same : a ≡ b = omega arith in
      (a, rw (ltb_irrefl a b same) refl, (rw same top_le, below, rw same at_b))
  search-IsLeast (suc n) a b le top_le wide below at_b = elim (Bool-cases (ltb a b)) [
    | inr done ↦
        let same : a ≡ b = (let q = ltb-eq-false a b done in omega arith) in
        (a, rw done refl, (rw same top_le, below, rw same at_b))
    | inl more ↦
        let lt = ltb→lt a b more in
        let decided = decides ((a + b) / 2) (omega arith) in
        let sum = add_256_ok a b (omega arith) in
        elim (Bool-cases (short ((a + b) / 2))) [
          | inl less ↦
              let (r, found, least) =
                search-IsLeast n ((a + b) / 2 + 1) b (omega arith) top_le (omega arith)
                  (λ x h. downward x ((a + b) / 2) (omega arith) (omega arith) less) at_b in
              (r, rw (more, sum, decided, less) found, least)
          | inr enough ↦
              let (r, found, least) =
                search-IsLeast n a ((a + b) / 2) (omega arith) (omega arith) (omega arith) below
                  (inr enough) in
              (r, rw (more, sum, decided, enough) found, least)
        ]
  ]

-- Where nothing is too little, the search ends where it starts.
pub search_idle :
    (too_little : ℕ → Result Bool) (n a b r : ℕ)
    → ((x : ℕ) → too_little x ≢ ok true)
    → search too_little n a b ≡ ok r
    → r ≡ a
unfolding search
search_idle too_little zero a b r never e =
    branch (ltb a b) _ _ e (λ more e. absurd (cc)) (λ stop e. sym (ok-injective e))
search_idle too_little (suc n) a b r never e =
    branch (ltb a b) _ _ e
      (λ more e. chain (add_256 a b) _ e λ sum e₁ e.
        chain (too_little (sum / 2)) _ e
          λ less h e. search_idle too_little n a _ r never (rw (not_less (sum / 2) less h) at e))
      (λ stop e. sym (ok-injective e))
  where
    not_less : (mid : ℕ) (less : Bool) → too_little mid ≡ ok less → less ≡ false
    not_less mid true h = absurd (never mid h)
    not_less mid false h = refl
