-- ===== src/DeltaNeutralPosition/Search/Scan.antt =====
-- The binary search of contracts/delta_neutral_position/src/rebalance.rs against a scan of all
-- numbers.
use position_managers.Prelude.{
  ℕ, zero, suc, ◌+◌, ◌/◌, ◌^◌, ◌≤◌, ◌<◌, ◌≡◌, refl, sym, ap, ◌∙◌, ◌⊎◌, inl, inr, Bool, true, false,
  ltb, ltb→lt, ltb-eq-false, Bool-cases, arith,
}
use position_managers.Cosmwasm.{Result, ok, ok-injective, add_128}
use position_managers.Dex.Search.{width}
use position_managers.DeltaNeutralPosition.Search.{search_leftmost, search_leftmost-border}

-- One number after the other: the first of `a`, `a + 1`, .. that is not left, or `a + k`.
unfoldable pub scan : (ℕ → Bool) → ℕ → ℕ → ℕ
scan left zero a = a
scan left (suc k) a = elim (left a) [ true ↦ scan left k (a + 1) | false ↦ a ]

sum_fits : (a b : ℕ) → a + b < 2 ^ 128 → add_128 a b ≡ ok (a + b)
sum_fits a b h = ground arith

not_below : (a b : ℕ) → b ≤ a → ltb a b ≡ false
not_below a b h = ground arith

module _ (is_left : ℕ → Result Bool) (left : ℕ → Bool) (top : ℕ) (in_range : top < 2 ^ 127)
    (decides : (x : ℕ) → x < top → is_left x ≡ ok (left x)) where
  -- Enough rounds find a number.
  pub search_leftmost-total :
      (n a b : ℕ)
      → a ≤ b
      → b ≤ top
      → b < a + width n
      → (r : ℕ) × (search_leftmost is_left n a b ≡ ok r)
  unfolding search_leftmost width
  search_leftmost-total zero a b le small wide = (a, rw (not_below a b (omega arith)) refl)
  search_leftmost-total (suc n) a b le small wide = elim (Bool-cases (ltb a b)) [
    | inr stop ↦ (a, rw stop refl)
    | inl more ↦
        let lt = ltb→lt a b more in
        let sum = sum_fits a b (omega arith) in
        let decided = decides ((a + b) / 2) (omega arith) in
        elim (Bool-cases (left ((a + b) / 2))) [
          | inl yes_left ↦
              let (r, found) =
                search_leftmost-total n ((a + b) / 2 + 1) b (omega arith) small (omega arith) in
              (r, rw (more, sum, decided, yes_left) found)
          | inr not_left ↦
              let (r, found) =
                search_leftmost-total n a ((a + b) / 2) (omega arith) (omega arith) (omega arith) in
              (r, rw (more, sum, decided, not_left) found)
        ]
  ]

  -- What a scan finds: all before it are left, and it is the end or not left.
  abbrev pub FirstOf : ℕ → ℕ → ℕ → Type 0
  FirstOf a b r =
      (a ≤ r) × (r ≤ b) × ((x : ℕ) → a ≤ x → x < r → left x ≡ true) × ((r ≡ b) ⊎ (left r ≡ false))

  scan_stops : (k a : ℕ) → left a ≡ false → scan left (suc k) a ≡ a
  unfolding scan
  scan_stops k a stop = rw (stop, scan) refl

  scan_goes_on : (k a : ℕ) → left a ≡ true → scan left (suc k) a ≡ scan left k (a + 1)
  unfolding scan
  scan_goes_on k a more = rw (more, scan) refl

  scan-FirstOf : (k a b : ℕ) → b ≡ a + k → FirstOf a b (scan left k a)
  unfolding scan
  scan-FirstOf zero a b end =
      (omega arith, omega arith, (λ x h h'. absurd (omega arith)), inl (omega arith))
  scan-FirstOf (suc k) a b end = elim (Bool-cases (left a)) [
    | inr stop ↦
        rw (scan_stops k a stop)
          ((omega arith, omega arith, (λ x h h'. absurd (omega arith)), inr stop))
    | inl more ↦
        let (above, below, all_left, border) = scan-FirstOf k (a + 1) b (omega arith) in
        rw (scan_goes_on k a more) (
          (
            (omega arith),
            (omega arith),
            (λ x h h'. elim (Bool-cases (ltb a x)) [
              | inl later ↦ all_left x (let q = ltb→lt a x later in omega arith) h'
              | inr same ↦
                  let here : x ≡ a = (let q = ltb-eq-false a x same in omega arith) in rw here more
            ]),
            border,
          ))
  ]

  module _ (monotone : (x y : ℕ) → x ≤ y → y < top → left y ≡ true → left x ≡ true) where
    -- Two numbers that both lie on the border are the same.
    border_unique :
        (r s : ℕ)
        → s ≤ top
        → r ≤ top
        → ((x : ℕ) → x < r → left x ≡ true)
        → (r ≡ top) ⊎ (left r ≡ false)
        → ((x : ℕ) → x < s → left x ≡ true)
        → (s ≡ top) ⊎ (left s ≡ false)
        → r ≡ s
    border_unique r s s_le r_le below_r at_r below_s at_s = elim (Bool-cases (ltb r s)) [
      | inl less ↦ absurd (crossing r s (ltb→lt r s less) s_le below_s at_r)
      | inr not_less ↦ elim (Bool-cases (ltb s r)) [
        | inl more ↦ absurd (crossing s r (ltb→lt s r more) r_le below_r at_s)
        | inr not_more ↦
            let q = ltb-eq-false r s not_less in let q' = ltb-eq-false s r not_more in omega arith
      ]
    ]
      where
        crossing :
            (u v : ℕ)
            → u < v
            → v ≤ top
            → ((x : ℕ) → x < v → left x ≡ true)
            → (u ≡ top) ⊎ (left u ≡ false)
            → ⊥
        crossing u v lt le all (inl end) = omega arith
        crossing u v lt le all (inr stop) = let h = all u lt in cc

    -- For a test that answers below the upper end, which fits 127 bits, and that holds below every
    -- number where it holds, the binary search with 128 rounds ends, with what a scan from 0 finds.
    pub search_leftmost-scan : search_leftmost is_left 128 0 top ≡ ok (scan left top 0)
    unfolding width
    search_leftmost-scan =
        let (r, found) =
          search_leftmost-total 128 0 top (omega arith) (omega arith) (omega arith) in
        let (zero_le, scan_le, all_left, at_scan) = scan-FirstOf top 0 top (omega arith) in
        let ((r_le, below_r), (_, at_r)) =
          search_leftmost-border is_left top (λ x. (x ≤ top) × ((y : ℕ) → y < x → left y ≡ true))
            (λ x. (x ≤ top) × ((x ≡ top) ⊎ (left x ≡ false)))
            (λ x h e. (omega arith, λ y below. monotone y x (omega arith) h (answered x h e)))
            (λ x h e. (omega arith, inr (ok-injective (sym (decides x h) ∙ e)))) 128 0 top r
            (omega arith) (omega arith) (omega arith, λ y below. absurd (omega arith))
            (omega arith, inl refl) found in
        found
        ∙ ap (λ n. ok n)
            (border_unique r (scan left top 0) scan_le r_le below_r at_r
              (λ x h. all_left x (omega arith) h) at_scan)
      where
        answered : (x : ℕ) → x < top → is_left x ≡ ok true → left x ≡ true
        answered x h e = ok-injective (sym (decides x h) ∙ e)
