-- ===== src/DeltaNeutralPosition/Search.antt =====
-- The binary searches of contracts/delta_neutral_position/src/open.rs and rebalance.rs over Uint128
-- numbers, and the borders at which they stop.
pub mod Scan
use position_managers.Prelude.{
  ℕ, zero, suc, ◌+◌, ◌-◌, ◌*◌, ◌/◌, ◌^◌, ◌≤◌, ◌<◌, ◌≡◌, refl, sym, ◌⊎◌, inl, inr, Bool, true, false,
  ltb, ltb→lt, ltb-eq-false, Bool-cases, arith, if◌then◌else◌,
}
use position_managers.Cosmwasm.{
  Result, ok, panic, ok-injective, ◌>>=◌, chain, branch, add_128, add_128-eq,
}

-- `while a < b { let mid = (a + b) >> 1; if is_left(mid) { a = mid + 1 } else { b = mid } }; a`, for
-- a number of rounds.
unfoldable pub search_leftmost : (ℕ → Result Bool) → ℕ → ℕ → ℕ → Result ℕ
search_leftmost is_left zero a b = if ltb a b then panic else ok a
search_leftmost is_left (suc n) a b =
    let rest = add_128 a b >>= λ sum. is_left (sum / 2) >>= λ left.
    search_leftmost is_left n (if left then sum / 2 + 1 else a) (if left then b else sum / 2) in
    if ltb a b then rest else ok a

-- `while b > a + 1 { let mid = (a + b) >> 1; if feasible(mid) { a = mid } else { b = mid } }; a`
unfoldable pub search_rightmost : (ℕ → Result Bool) → ℕ → ℕ → ℕ → Result ℕ
search_rightmost feasible zero a b = if ltb (a + 1) b then panic else ok a
search_rightmost feasible (suc n) a b =
    let rest = add_128 a b >>= λ sum. feasible (sum / 2) >>= λ fits.
    search_rightmost feasible n (if fits then sum / 2 else a) (if fits then b else sum / 2) in
    if ltb (a + 1) b then rest else ok a

pub half_below : (a b : ℕ) → a < b → (a + b) / 2 < b
half_below a b h = omega arith

half_from : (a b : ℕ) → a ≤ b → a ≤ (a + b) / 2
half_from a b h = omega arith

pub half_above : (a b : ℕ) → a + 1 < b → a < (a + b) / 2
half_above a b h = omega arith

-- Where the search for the leftmost stops: the found number has what the lower end and the
-- successor of all that is left have, and what the upper end and all that is not left have.
module _ (is_left : ℕ → Result Bool) (top : ℕ) (P Q : ℕ → Type 0)
    (left-P : (x : ℕ) → x < top → is_left x ≡ ok true → P (x + 1))
    (right-Q : (x : ℕ) → x < top → is_left x ≡ ok false → Q x) where
  chosen-P :
      (mid a : ℕ) (left : Bool)
      → mid < top
      → is_left mid ≡ ok left
      → P a
      → P (if left then mid + 1 else a)
  chosen-P mid a true small h pa = left-P mid small h
  chosen-P mid a false small h pa = pa

  chosen-Q :
      (mid b : ℕ) (left : Bool)
      → mid < top
      → is_left mid ≡ ok left
      → Q b
      → Q (if left then b else mid)
  chosen-Q mid b true small h qb = qb
  chosen-Q mid b false small h qb = right-Q mid small h

  chosen-le :
      (mid a b : ℕ) (left : Bool)
      → a ≤ mid
      → mid < b
      → (if left then mid + 1 else a) ≤ (if left then b else mid)
  chosen-le mid a b true h h' = omega arith
  chosen-le mid a b false h h' = h

  kept_in_top : (mid b : ℕ) (left : Bool) → mid < b → b ≤ top → (if left then b else mid) ≤ top
  kept_in_top mid b true h le = le
  kept_in_top mid b false h le = omega arith

  under : {x y : ℕ} → x < y → y ≤ top → x < top
  under h le = omega arith

  met : (a b : ℕ) → a ≤ b → ltb a b ≡ false → P a → Q b → P a × Q a
  met a b le stop pa qb =
      (pa, (let same : a ≡ b = (let q = ltb-eq-false a b stop in omega arith) in rw same qb))

  pub search_leftmost-border :
      (n a b r : ℕ) → a ≤ b → b ≤ top → P a → Q b → search_leftmost is_left n a b ≡ ok r → P r × Q r
  unfolding search_leftmost
  search_leftmost-border zero a b r le in_top pa qb e =
      branch (ltb a b) _ _ e (λ more e. absurd (cc))
        (λ stop e. rw (sym (ok-injective e)) (met a b le stop pa qb))
  search_leftmost-border (suc n) a b r le in_top pa qb e =
      branch (ltb a b) _ _ e
        (λ more e. chain (add_128 a b) _ e λ sum e₁ e. chain (is_left (sum / 2)) _ e λ left h e.
          let below : sum / 2 < b = rw (add_128-eq a b sum e₁) (half_below a b (ltb→lt a b more)) in
          search_leftmost-border n _ _ r
            (chosen-le (sum / 2) a b left (rw (add_128-eq a b sum e₁) (half_from a b le)) below)
            (kept_in_top (sum / 2) b left below in_top)
            (chosen-P (sum / 2) a left (under below in_top) h pa)
            (chosen-Q (sum / 2) b left (under below in_top) h qb) e)
        (λ stop e. rw (sym (ok-injective e)) (met a b le stop pa qb))

module _ (feasible : ℕ → Result Bool) (P Q : ℕ → Type 0)
    (fits-P : (x : ℕ) → feasible x ≡ ok true → P x)
    (exceeds-Q : (x : ℕ) → feasible x ≡ ok false → Q x) where
  picked-P : (mid a : ℕ) (fits : Bool) → feasible mid ≡ ok fits → P a → P (if fits then mid else a)
  picked-P mid a true h pa = fits-P mid h
  picked-P mid a false h pa = pa

  picked-Q : (mid b : ℕ) (fits : Bool) → feasible mid ≡ ok fits → Q b → Q (if fits then b else mid)
  picked-Q mid b true h qb = qb
  picked-Q mid b false h qb = exceeds-Q mid h

  picked-lt :
      (mid a b : ℕ) (fits : Bool)
      → a < mid
      → mid < b
      → (if fits then mid else a) < (if fits then b else mid)
  picked-lt mid a b true h h' = h'
  picked-lt mid a b false h h' = h

  successor_Q : (a b : ℕ) → a < b → ltb (a + 1) b ≡ false → Q b → Q (a + 1)
  successor_Q a b h stop qb =
      (let same : a + 1 ≡ b = (let q = ltb-eq-false (a + 1) b stop in omega arith) in rw same qb)

  -- Where the search for the rightmost stops: the found number has what the lower end and all that
  -- fits have, the next one what the upper end and all that does not fit have.
  pub search_rightmost-border :
      (n a b r : ℕ) → a < b → P a → Q b → search_rightmost feasible n a b ≡ ok r → P r × Q (r + 1)
  unfolding search_rightmost
  search_rightmost-border zero a b r lt pa qb e =
      branch (ltb (a + 1) b) _ _ e (λ more e. absurd (cc))
        (λ stop e. rw (sym (ok-injective e)) ((pa, successor_Q a b lt stop qb)))
  search_rightmost-border (suc n) a b r lt pa qb e =
      branch (ltb (a + 1) b) _ _ e
        (λ more e. chain (add_128 a b) _ e λ sum e₁ e. chain (feasible (sum / 2)) _ e λ fits h e.
          search_rightmost-border n _ _ r
            (picked-lt (sum / 2) a b fits
              (rw (add_128-eq a b sum e₁) (half_above a b (ltb→lt (a + 1) b more)))
              (rw (add_128-eq a b sum e₁) (half_below a b lt)))
            (picked-P (sum / 2) a fits h pa) (picked-Q (sum / 2) b fits h qb) e)
        (λ stop e. rw (sym (ok-injective e)) ((pa, successor_Q a b lt stop qb)))
