-- ===== src/Money/Text/Exact.antt =====
-- internal/money/money.go: the int64 operations that the printing and the reading of amounts use are
-- exact on numbers that are not negative.
use trade_execution_operatin.Common.{
  ℕ, ◌+◌, ◌-◌, ◌*◌, ◌/◌, ◌%◌, ◌≤◌, ◌≡◌, ap, ◌∙◌, arith, ltb, false,
}
use trade_execution_operatin.Common.Int.{pos, ◌+ℤ◌, ◌-ℤ◌, ◌*ℤ◌}
use trade_execution_operatin.Common.Int64.{
  max_int64, wrap64, wrap64_id, add64, sub64, mul64, quot64,
}
use trade_execution_operatin.Money.Text.{rem64}

wrap64-pos : (n : ℕ) → n ≤ max_int64 → wrap64 (pos n) ≡ pos n
wrap64-pos n h = wrap64_id (pos n) (h, omega arith)

pub add64_nonneg : (a b : ℕ) → a + b ≤ max_int64 → add64 (pos a) (pos b) ≡ pos (a + b)
unfolding ◌+ℤ◌
add64_nonneg a b h =
    let sum : pos a +ℤ pos b ≡ pos (a + b) = ground arith in ap wrap64 sum ∙ wrap64-pos (a + b) h

sub64_nonneg : (a b : ℕ) → b ≤ a → a ≤ max_int64 → sub64 (pos a) (pos b) ≡ pos (a - b)
unfolding ◌-ℤ◌
sub64_nonneg a b le h =
    let difference : pos a -ℤ pos b ≡ pos (a - b) = ground arith in
    ap wrap64 difference ∙ wrap64-pos (a - b) (omega arith)

pub mul64_nonneg : (a b : ℕ) → a * b ≤ max_int64 → mul64 (pos a) (pos b) ≡ pos (a * b)
unfolding ◌*ℤ◌
mul64_nonneg a b h =
    let product : pos a *ℤ pos b ≡ pos (a * b) = ground arith in
    ap wrap64 product ∙ wrap64-pos (a * b) h

pub quot64_hundred : (n : ℕ) → n ≤ max_int64 → quot64 (pos n) (pos 100) ≡ pos (n / 100)
unfolding quot64
quot64_hundred n h =
    let up : ltb (n + 0) 0 ≡ false = ground arith in rw up (wrap64-pos (n / 100) (omega arith))

pub rem64_hundred : (n : ℕ) → n ≤ max_int64 → rem64 (pos n) (pos 100) ≡ pos (n % 100)
unfolding rem64
rem64_hundred n h =
    let whole : n / 100 * 100 ≤ max_int64 = omega arith in
    let rest : n - n / 100 * 100 ≡ n % 100 = omega arith in
    rw (quot64_hundred n h, mul64_nonneg (n / 100) 100 whole)
      (sub64_nonneg n (n / 100 * 100) (omega arith) h ∙ ap pos rest)
