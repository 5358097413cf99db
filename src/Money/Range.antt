-- ===== src/Money/Range.antt =====
-- internal/money/money.go: a notional that is answered is an int64.
use mathlib.Core.Path.{subst}
use trade_execution_operatin.Common.{
  ℕ, ◌≡◌, Bool, true, false, some, arith, Bool-cases, Option-cases, ltb, ◌||◌, inl, inr,
}
use trade_execution_operatin.Common.Int.{ℤ}
use trade_execution_operatin.Common.Int64.{IsInt64, max_int64, wrap64-IsInt64, to_u64, is_neg}
use trade_execution_operatin.Money.{Minor, Qty}
use trade_execution_operatin.Money.{with_sign, xor, mul_div, qty_scale, strip_sign, notional_rem}
use trade_execution_operatin.Money
use trade_execution_operatin.Common.{none-ne-some}

with_sign-IsInt64 : (neg : Bool) (q : ℕ) → ltb max_int64 q ≡ false → IsInt64 (with_sign neg q)
with_sign-IsInt64 true q h = wrap64-IsInt64 _
with_sign-IsInt64 false q h = (ground arith, omega arith)

some-inj : {x y : ℤ} → some x ≡ some y → x ≡ y
some-inj e = cc

pub notional-IsInt64 : (q p n : ℤ) → Money.notional q p ≡ some n → IsInt64 n
unfolding Money.notional notional_rem
notional-IsInt64 q p n e = elim (Bool-cases (is_neg (strip_sign q) || is_neg (strip_sign p))) [
  | inl out ↦ absurd (none-ne-some (rw out at e))
  | inr in_range ↦
      elim (Option-cases (mul_div (to_u64 (strip_sign q)) (to_u64 (strip_sign p)) qty_scale)) [
        | inl stuck ↦ absurd (none-ne-some (rw (in_range, stuck) at e))
        | inr ((quo, rem), ok_div) ↦ elim (Bool-cases (ltb max_int64 quo)) [
          | inl big ↦ absurd (none-ne-some (rw (in_range, ok_div, big) at e))
          | inr fits ↦
              subst IsInt64 (some-inj (rw (in_range, ok_div, fits) at e))
                (with_sign-IsInt64 (xor (is_neg q) (is_neg p)) quo fits)
        ]
      ]
]
