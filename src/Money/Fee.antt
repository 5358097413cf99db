-- ===== src/Money/Fee.antt =====
-- FeeBps of internal/money/money.go: basis points, rounded up.
use trade_execution_operatin.Common.{
  ℕ, suc, ◌-◌, ◌*◌, ◌/◌, ◌%◌, ◌≤◌, ◌<◌, ◌≡◌, ◌∙◌, none, some, zero, arith, ltb, leb, if◌then◌else◌,
  ◌||◌, Bool-cases, inl, inr,
}
use trade_execution_operatin.Common.Int.{ℤ, pos, magnitude, ◌-ℤ◌}
use trade_execution_operatin.Common.Int64.{word, max_int64, to_u64_nonneg, is_neg}
use trade_execution_operatin.Money.{bps_scale, round_up, fee_bps}
use trade_execution_operatin.Money.Notional.{
  mul_div_exact, strip_sign_exact, signed, with_sign_exact, ceil_div,
}

-- Where the quotient fits 64 bits, `quo++` is the exact quotient rounded up, and its carry is lost.
round_up_wraps :
    (m : ℕ)
    → m < bps_scale * word
    → round_up (m / bps_scale) (m % bps_scale) ≡ ceil_div m bps_scale % word
round_up_wraps m h = ground arith

-- What FeeBps returns for a positive rate and an amount other than math.MinInt64: a failure when the
-- exact product, divided by 10000 and truncated, needs more than 64 bits, or when the exact fee
-- rounded up leaves a remainder above math.MaxInt64 modulo 2^64, and otherwise that remainder with
-- the amount's sign.
pub fee_bps_exact :
    (a : ℤ) (b : ℕ)
    → magnitude a ≤ max_int64
    → suc b ≤ max_int64
    → fee_bps a (pos (suc b)) ≡ (
        if leb (bps_scale * word) (magnitude a * suc b)
          || ltb max_int64 (ceil_div (magnitude a * suc b) bps_scale % word)
        then none
        else some (signed (is_neg a) (ceil_div (magnitude a * suc b) bps_scale % word)))
unfolding fee_bps
fee_bps_exact a b ha hb =
    let m = magnitude a * suc b in
    rw
      (
        strip_sign_exact a ha,
        to_u64_nonneg (magnitude a) (omega arith),
        to_u64_nonneg (suc b) (omega arith),
        mul_div_exact (magnitude a) (suc b) bps_scale,
      )
      (elim (Bool-cases (leb (bps_scale * word) m)) [
        | inl large ↦ rw large (ground arith)
        | inr fits ↦
            rw (fits, round_up_wraps m (ground arith))
              (ground (arith, with_sign_exact (is_neg a) (ceil_div m bps_scale % word)))
      ])

-- For a rate from zero to 100% and an amount other than math.MinInt64, FeeBps succeeds and is the
-- exact fee with its magnitude rounded up.
pub fee_bps_rate :
    (a : ℤ) (b : ℕ)
    → magnitude a ≤ max_int64
    → b ≤ bps_scale
    → fee_bps a (pos b) ≡ some (signed (is_neg a) (ceil_div (magnitude a * b) bps_scale))
unfolding fee_bps ◌-ℤ◌
fee_bps_rate a zero ha hb = ground arith
fee_bps_rate a (suc b) ha hb =
    let small : magnitude a * suc b ≤ magnitude a * bps_scale = grind arith in
    rw (fee_bps_exact a b ha (omega arith)) (ground arith)

-- The lost carry: for an amount and a positive rate whose quotient is the largest 64-bit word with a
-- remainder, FeeBps succeeds with a fee of zero.
pub fee_bps_lost_carry :
    (a b : ℕ)
    → a ≤ max_int64
    → suc b ≤ max_int64
    → a * suc b / bps_scale ≡ word - 1
    → 0 < a * suc b % bps_scale
    → fee_bps (pos a) (pos (suc b)) ≡ some (pos 0)
fee_bps_lost_carry a b ha hb q r = rw (fee_bps_exact (pos a) b ha hb) (ground arith)

pub fee_bps_nonneg :
    (a b : ℕ)
    → a ≤ max_int64
    → b ≤ bps_scale
    → fee_bps (pos a) (pos b) ≡ some (pos (ceil_div (a * b) bps_scale))
fee_bps_nonneg a b ha hb = fee_bps_rate (pos a) b ha hb ∙ ground arith
