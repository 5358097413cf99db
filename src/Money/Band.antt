-- ===== src/Money/Band.antt =====
-- Add, ApplyBps and SubBps of internal/money/money.go: checked sums, and the collar's band.
use trade_execution_operatin.Common.{
  ℕ, ◌+◌, ◌-◌, ◌*◌, ◌≤◌, ◌≡◌, Bool, none, some, arith, leb, if◌then◌else◌, ◌&&◌,
}
use trade_execution_operatin.Common.Int.{ℤ, pos, pos_part, neg_part, ◌-ℤ◌, ◌+ℤ◌}
use trade_execution_operatin.Common.Int64.{max_int64, IsInt64, wrap64}
use trade_execution_operatin.Money.{bps_scale, add, apply_bps, sub_bps}
use trade_execution_operatin.Money.Notional.{ceil_div}
use trade_execution_operatin.Money.Fee.{fee_bps_rate}

-- The true value fits in an int64.
abbrev pub fits : ℤ → Bool
fits z = leb (pos_part z) max_int64 && leb (neg_part z) (max_int64 + 1)

-- Add on two int64 values returns their true sum exactly when that fits in an int64, and otherwise
-- reports the overflow.
pub add_exact :
    (a b : ℤ) → IsInt64 a → IsInt64 b → add a b ≡ (if fits (a +ℤ b) then some (a +ℤ b) else none)
unfolding add wrap64 ◌+ℤ◌
add_exact a b ha hb = ground arith

-- The rounded-up fee on an amount is at most the amount, for a rate of at most 100%.
pub ceil_div-le : (a b : ℕ) → b ≤ bps_scale → ceil_div (a * b) bps_scale ≤ a
ceil_div-le a b h = let small : a * b ≤ a * bps_scale = grind arith in ground arith

-- ApplyBps widens an amount that is not negative by the rounded-up rate, for a rate up to 100%, and
-- fails exactly when the sum does not fit in an int64.
pub apply_bps_exact :
    (a b : ℕ)
    → a ≤ max_int64
    → b ≤ bps_scale
    → apply_bps (pos a) (pos b) ≡ (
        if leb (a + ceil_div (a * b) bps_scale) max_int64
        then some (pos (a + ceil_div (a * b) bps_scale))
        else none)
unfolding apply_bps wrap64 ◌+ℤ◌
apply_bps_exact a b ha hb =
    rw (fee_bps_rate (pos a) b ha hb, apply_bps) (ground (arith, ceil_div-le a b hb))

-- SubBps narrows an amount that is not negative by the rounded-up rate, for a rate up to 100%, and
-- never fails.
pub sub_bps_exact :
    (a b : ℕ)
    → a ≤ max_int64
    → b ≤ bps_scale
    → sub_bps (pos a) (pos b) ≡ some (pos (a - ceil_div (a * b) bps_scale))
unfolding sub_bps wrap64 ◌-ℤ◌
sub_bps_exact a b ha hb =
    rw (fee_bps_rate (pos a) b ha hb, sub_bps) (ground (arith, ceil_div-le a b hb))
