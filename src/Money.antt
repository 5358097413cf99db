-- ===== src/Money.antt =====
-- internal/money/money.go: amounts (Minor) and quantities (Qty) are int64, here ℤ in range.
-- A function that returns (value, ok) returns `none` for ok = false.
pub mod Notional
pub mod Fee
pub mod Band
pub mod Range
pub mod Text
mod Tests
use trade_execution_operatin.Common.{
  ℕ, ◌+◌, ◌*◌, ◌/◌, ◌%◌, Bool, true, false, not, ◌||◌, ◌&&◌, Option, none, some, ltb, leb, ◌==◌,
  if◌then◌else◌,
}
use trade_execution_operatin.Common.Int.{ℤ, pos, ltb_ℤ, eqb_ℤ}
use trade_execution_operatin.Common.Int64.{
  word, max_int64, to_u64, wrap64, add64, sub64, neg64, is_neg,
}

-- type Minor int64, type Qty int64
abbrev pub Minor : Type 0
Minor = ℤ

abbrev pub Qty : Type 0
Qty = ℤ

abbrev pub qty_scale : ℕ
qty_scale = 1000000

abbrev pub bps_scale : ℕ
bps_scale = 10000

-- bits.Mul64: the two words of a product.
abbrev pub mul_hi : ℕ → ℕ → ℕ
mul_hi a b = a * b / word

abbrev pub mul_lo : ℕ → ℕ → ℕ
mul_lo a b = (a * b) % word

-- bits.Div64, for hi < y: the quotient and the remainder of a two-word number.
abbrev pub div_quo : ℕ → ℕ → ℕ → ℕ
div_quo hi lo y = (hi * word + lo) / y

abbrev pub div_rem : ℕ → ℕ → ℕ → ℕ
div_rem hi lo y = (hi * word + lo) % y

-- `if a < 0 { neg, a = !neg, -a }`
abbrev pub strip_sign : ℤ → ℤ
strip_sign a = if is_neg a then neg64 a else a

-- `out := Minor(quo); if neg { out = -out }`
abbrev pub with_sign : Bool → ℕ → ℤ
with_sign neg quo = if neg then neg64 (pos quo) else pos quo

abbrev pub xor : Bool → Bool → Bool
xor a b = if a then not b else b

-- The shared core of notional and FeeBps: bits.Mul64, the guard `hi >= y` (bits.Div64 would panic),
-- and bits.Div64.
unfoldable pub mul_div : ℕ → ℕ → ℕ → Option (ℕ × ℕ)
mul_div a b y =
    if leb y (mul_hi a b)
    then none
    else some (div_quo (mul_hi a b) (mul_lo a b) y, div_rem (mul_hi a b) (mul_lo a b) y)

-- notional: the truncated quotient and the remainder.
unfoldable pub notional_rem : Qty → Minor → Option (Minor × ℕ)
notional_rem qty price =
    let neg = xor (is_neg qty) (is_neg price) in
    let a = strip_sign qty in
    let b = strip_sign price in
    if is_neg a || is_neg b then none else elim (mul_div (to_u64 a) (to_u64 b) qty_scale) [
      | none ↦ none
      | some (quo, rem) ↦ if ltb max_int64 quo then none else some (with_sign neg quo, rem)
    ]

-- `n, _, ok := notional(qty, price)`
abbrev pub quotient : Option (Minor × ℕ) → Option Minor
quotient none = none
quotient (some (n, _)) = some n

-- Notional
unfoldable pub notional : Qty → Minor → Option Minor
notional qty price = quotient (notional_rem qty price)

-- The rounding away from zero of NotionalCeil, once the multiply has succeeded.
unfoldable pub round_away : Qty → Minor → Minor → ℕ → Option Minor
round_away qty price n rem =
    if rem == 0
    then some n
    else if eqb_ℤ n (pos max_int64)
    then none
    else if xor (is_neg qty) (is_neg price)
    then some (sub64 n (pos 1))
    else some (add64 n (pos 1))

-- NotionalCeil
unfoldable pub notional_ceil : Qty → Minor → Option Minor
notional_ceil qty price = elim (notional_rem qty price) [
  | none ↦ none
  | some (n, rem) ↦ round_away qty price n rem
]

-- `if rem != 0 { quo++ }`, on a uint64.
abbrev pub round_up : ℕ → ℕ → ℕ
round_up quo rem = if rem == 0 then quo else (quo + 1) % word

-- FeeBps
unfoldable pub fee_bps : Minor → ℤ → Option Minor
fee_bps amount bps =
    let n = strip_sign amount in
    if eqb_ℤ bps (pos 0)
    then some (pos 0)
    else if is_neg n || is_neg bps
    then none
    else elim (mul_div (to_u64 n) (to_u64 bps) bps_scale) [
      | none ↦ none
      | some (quo, rem) ↦
          if ltb max_int64 (round_up quo rem)
          then none
          else some (with_sign (is_neg amount) (round_up quo rem))
    ]

-- The overflow test that Add and ApplyBps share: the sum moved against the sign of `b`.
abbrev pub sum_overflows : ℤ → ℤ → ℤ → Bool
sum_overflows a b s = (ltb_ℤ (pos 0) b && ltb_ℤ s a) || (ltb_ℤ b (pos 0) && ltb_ℤ a s)

-- ApplyBps
unfoldable pub apply_bps : Minor → ℤ → Option Minor
apply_bps amount bps = elim (fee_bps amount bps) [
  | none ↦ none
  | some delta ↦
      let sum = add64 amount delta in if sum_overflows amount delta sum then none else some sum
]

-- SubBps
unfoldable pub sub_bps : Minor → ℤ → Option Minor
sub_bps amount bps = elim (fee_bps amount bps) [
  | none ↦ none
  | some delta ↦ some (sub64 amount delta)
]

-- Add
unfoldable pub add : Minor → Minor → Option Minor
add a b = let s = add64 a b in if sum_overflows a b s then none else some s
