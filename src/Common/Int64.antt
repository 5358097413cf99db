-- ===== src/Common/Int64.antt =====
-- Go's int64 and uint64: an int64 is an integer in range, and each operation wraps.
use trade_execution_operatin.Common.{
  ℕ, suc, ◌+◌, ◌-◌, ◌/◌, ◌%◌, ◌≤◌, ◌<◌, ◌≡◌, refl, Bool, arith, leb, if◌then◌else◌,
}
use trade_execution_operatin.Common.Int.{
  ℤ, pos, negsuc, pos_part, neg_part, ◌+ℤ◌, ◌-ℤ◌, ◌*ℤ◌, ltb_ℤ, magnitude,
}

-- 2^64, and math.MaxInt64.
abbrev pub word : ℕ
word = 18446744073709551616

abbrev pub max_int64 : ℕ
max_int64 = 9223372036854775807

abbrev pub IsInt64 : ℤ → Type 0
IsInt64 z = (pos_part z ≤ max_int64) × (neg_part z ≤ max_int64 + 1)

-- uint64(z): the two's complement bits.
unfoldable pub to_u64 : ℤ → ℕ
to_u64 (pos n) = n % word
to_u64 (negsuc n) = word - 1 - n % word

-- int64(w)
unfoldable pub of_u64 : ℕ → ℤ
of_u64 w = if leb w max_int64 then pos w else negsuc (word - 1 - w)

unfoldable pub wrap64 : ℤ → ℤ
unfolding to_u64 of_u64
wrap64 z = of_u64 (to_u64 z)

abbrev pub add64 : ℤ → ℤ → ℤ
add64 a b = wrap64 (a +ℤ b)

abbrev pub sub64 : ℤ → ℤ → ℤ
sub64 a b = wrap64 (a -ℤ b)

abbrev pub mul64 : ℤ → ℤ → ℤ
mul64 a b = wrap64 (a *ℤ b)

abbrev pub neg64 : ℤ → ℤ
neg64 a = wrap64 (pos 0 -ℤ a)

-- a / b on int64, toward zero (the callers test b ≢ 0; MinInt64 / -1 wraps).
unfoldable pub quot64 : ℤ → ℤ → ℤ
quot64 a b =
    let q = magnitude a / magnitude b in
    let flip = ltb_ℤ a (pos 0) in
    let flop = ltb_ℤ b (pos 0) in
    if flip
    then (if flop then wrap64 (pos q) else neg64 (pos q))
    else (if flop then neg64 (pos q) else wrap64 (pos q))

abbrev pub is_neg : ℤ → Bool
is_neg z = ltb_ℤ z (pos 0)

-- Wrapping changes nothing in range, and always ends in range.
pub wrap64_id : (z : ℤ) → IsInt64 z → wrap64 z ≡ z
unfolding wrap64
wrap64_id z h = ground arith

pub wrap64-IsInt64 : (z : ℤ) → IsInt64 (wrap64 z)
unfolding wrap64
wrap64-IsInt64 z = ground arith

pub to_u64_nonneg : (n : ℕ) → n < word → to_u64 (pos n) ≡ n
unfolding to_u64
to_u64_nonneg n h = omega arith

-- The negation of an int64: exact, but for MinInt64, which stays negative.
pub neg64_exact : (n : ℕ) → suc n ≤ max_int64 → neg64 (negsuc n) ≡ pos (suc n)
unfolding wrap64 ◌-ℤ◌
neg64_exact n h = ground arith

pub neg64_min : neg64 (negsuc max_int64) ≡ negsuc max_int64
unfolding wrap64 ◌-ℤ◌
neg64_min = refl
