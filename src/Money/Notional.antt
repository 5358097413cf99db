-- ===== src/Money/Notional.antt =====
-- The scaled multiply of internal/money/money.go against exact arithmetic.
use trade_execution_operatin.Common.{
  ℕ, ◌+◌, ◌*◌, ◌/◌, ◌%◌, ◌≤◌, ◌<◌, ◌≡◌, ◌⊎◌, inl, inr, Bool, true, Option, none, some, arith, ltb,
  leb, ◌==◌, Bool-cases, if◌then◌else◌, ◌||◌,
}
use trade_execution_operatin.Common.Int.{ℤ, pos, magnitude, ◌-ℤ◌, ◌+ℤ◌}
use trade_execution_operatin.Common.Int64.{word, max_int64, IsInt64, wrap64, to_u64_nonneg, is_neg}
use trade_execution_operatin.Money.{
  Minor, Qty, qty_scale, mul_div, strip_sign, with_sign, xor, quotient, notional_rem, notional,
  notional_ceil, round_away,
}

-- Multiplying into two words and dividing back is exact division, refused when the quotient
-- does not fit in a word.
pub mul_div_exact :
    (a b y : ℕ)
    → mul_div a b y ≡ (if leb (y * word) (a * b) then none else some (a * b / y, a * b % y))
unfolding mul_div
mul_div_exact a b y =
    let whole : a * b / word * word + (a * b) % word ≡ a * b = omega arith in
    rw whole (ground arith)

-- The sign of a product, put back on a magnitude that fits.
abbrev pub signed : Bool → ℕ → ℤ
signed neg n = if neg then pos 0 -ℤ pos n else pos n

pub with_sign_exact : (neg : Bool) (n : ℕ) → n ≤ max_int64 → with_sign neg n ≡ signed neg n
unfolding wrap64 ◌-ℤ◌
with_sign_exact neg n h = ground arith

pub strip_sign_exact : (z : ℤ) → magnitude z ≤ max_int64 → strip_sign z ≡ pos (magnitude z)
unfolding wrap64 ◌-ℤ◌
strip_sign_exact z h = ground arith

-- math.MinInt64 has no negation, and both entry points refuse it.
pub strip_sign_min : (z : ℤ) → IsInt64 z → max_int64 < magnitude z → is_neg (strip_sign z) ≡ true
unfolding wrap64 ◌-ℤ◌
strip_sign_min z h m = ground arith

-- The exact result that notional stands for.
abbrev pub exact_notional : Qty → Minor → Option (Minor × ℕ)
exact_notional q p =
    if ltb max_int64 (magnitude q) || ltb max_int64 (magnitude p)
    then none
    else if ltb max_int64 (magnitude q * magnitude p / qty_scale)
    then none
    else some (
      signed (xor (is_neg q) (is_neg p)) (magnitude q * magnitude p / qty_scale),
      magnitude q * magnitude p % qty_scale,
    )

module _ (q p : ℤ) (hq : magnitude q ≤ max_int64) (hp : magnitude p ≤ max_int64) where
  notional_rem-exact_small : notional_rem q p ≡ exact_notional q p
  unfolding notional_rem
  notional_rem-exact_small =
      rw
        (
          strip_sign_exact q hq,
          strip_sign_exact p hp,
          to_u64_nonneg (magnitude q) (omega arith),
          to_u64_nonneg (magnitude p) (omega arith),
          mul_div_exact (magnitude q) (magnitude p) qty_scale,
        )
        (ground (
          arith,
          with_sign_exact (xor (is_neg q) (is_neg p)) (magnitude q * magnitude p / qty_scale),
        ))

module _ (q p : ℤ) (vq : IsInt64 q) (vp : IsInt64 p) where
  notional_rem_min : (max_int64 < magnitude q) ⊎ (max_int64 < magnitude p) → notional_rem q p ≡ none
  unfolding notional_rem
  notional_rem_min (inl h) = rw (strip_sign_min q vq h)
  notional_rem_min (inr h) = rw (strip_sign_min p vp h) (ground arith)

  pub notional_rem_exact : notional_rem q p ≡ exact_notional q p
  notional_rem_exact = elim (Bool-cases (ltb max_int64 (magnitude q))) [
    | inl big ↦ rw (notional_rem_min (inl (ground arith)), big)
    | inr okq ↦ elim (Bool-cases (ltb max_int64 (magnitude p))) [
      | inl big ↦ rw (notional_rem_min (inr (ground arith))) (ground arith)
      | inr okp ↦ notional_rem-exact_small q p (ground arith) (ground arith)
    ]
  ]

  -- For any two int64 arguments, Notional is the exact quotient by the quantity scale rounded toward
  -- zero, and fails exactly on math.MinInt64 and on a quotient above math.MaxInt64.
  pub notional_exact : notional q p ≡ quotient (exact_notional q p)
  unfolding notional
  notional_exact = rw (notional_rem_exact, notional)

-- The quotient rounded up.
abbrev pub ceil_div : ℕ → ℕ → ℕ
ceil_div m y = if m % y == 0 then m / y else m / y + 1

-- On a quantity and a price that are not negative, NotionalCeil is the exact quotient rounded up, and
-- fails exactly when that does not fit in an int64.
pub notional_ceil_exact :
    (q p : ℕ)
    → q ≤ max_int64
    → p ≤ max_int64
    → notional_ceil (pos q) (pos p) ≡ (
        if ltb max_int64 (ceil_div (q * p) qty_scale)
        then none
        else some (pos (ceil_div (q * p) qty_scale)))
unfolding notional_ceil round_away wrap64 ◌+ℤ◌
notional_ceil_exact q p hq hp =
    rw (notional_rem_exact (pos q) (pos p) (hq, omega arith) (hp, omega arith), notional_ceil)
      (ground arith)
