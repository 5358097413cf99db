-- ===== src/Money/Tests.antt =====
-- The theorems on internal/money/money.go at concrete amounts.
use trade_execution_operatin.Common.{◌≡◌, refl, none, some, arith}
use trade_execution_operatin.Common.Int.{pos, negsuc, ◌+ℤ◌, ◌-ℤ◌}
use trade_execution_operatin.Common.Int64.{max_int64}
use trade_execution_operatin.Money.{notional, notional_ceil, fee_bps, add, apply_bps, sub_bps}
use trade_execution_operatin.Money.Notional.{notional_exact, notional_ceil_exact}
use trade_execution_operatin.Money.Fee.{fee_bps_exact, fee_bps_rate, fee_bps_lost_carry}
use trade_execution_operatin.Money.Band.{add_exact, apply_bps_exact, sub_bps_exact}

-- One and a half shares at 1.99, sold: 2.985 rounded toward zero.
notional_exact_example : notional (negsuc 1499999) (pos 199) ≡ some (negsuc 297)
unfolding ◌-ℤ◌
notional_exact_example =
    notional_exact (negsuc 1499999) (pos 199) (omega arith, omega arith) (omega arith, omega arith)

notional_ceil_exact_example : notional_ceil (pos 1500000) (pos 199) ≡ some (pos 299)
notional_ceil_exact_example = notional_ceil_exact 1500000 199 (omega arith) (omega arith)

fee_bps_exact_example : fee_bps (pos 199999) (pos 5) ≡ some (pos 100)
fee_bps_exact_example = fee_bps_exact (pos 199999) 4 (omega arith) (omega arith)

fee_bps_rate_example : fee_bps (negsuc 199998) (pos 5) ≡ some (negsuc 99)
unfolding ◌-ℤ◌
fee_bps_rate_example = fee_bps_rate (negsuc 199998) 5 (omega arith) (omega arith)

fee_bps_lost_carry_example : fee_bps (pos 7609101214251351572) (pos 24243) ≡ some (pos 0)
fee_bps_lost_carry_example =
    fee_bps_lost_carry 7609101214251351572 24242 (omega arith) (omega arith) refl (omega arith)

add_exact_example : add (pos max_int64) (pos 1) ≡ none
unfolding ◌+ℤ◌
add_exact_example =
    add_exact (pos max_int64) (pos 1) (omega arith, omega arith) (omega arith, omega arith)

apply_bps_exact_example : apply_bps (pos 10001) (pos 500) ≡ some (pos 10502)
apply_bps_exact_example = apply_bps_exact 10001 500 (omega arith) (omega arith)

sub_bps_exact_example : sub_bps (pos 10001) (pos 500) ≡ some (pos 9500)
sub_bps_exact_example = sub_bps_exact 10001 500 (omega arith) (omega arith)
