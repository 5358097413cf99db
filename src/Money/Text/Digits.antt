-- ===== src/Money/Text/Digits.antt =====
-- internal/money/money.go: the decimal digits of a number, printed and read.
use trade_execution_operatin.Common.{
  ℕ, zero, suc, ◌+◌, ◌-◌, ◌*◌, ◌/◌, ◌%◌, ◌<◌, ◌≤◌, ◌≡◌, refl, ap, ◌∙◌, true, false, ◌&&◌, some,
  List, [], ◌∷◌, ◌++◌, ltb, leb, ◌==◌, length, Bool-cases, inl, inr, ◌⊎◌, arith, All,
}
use trade_execution_operatin.Common.Int.{pos}
use trade_execution_operatin.Common.Int64.{max_int64}
use trade_execution_operatin.Money.Text.{
  decimal, pad, drop_commas, is_space, trim_left, trim_right, cut, parse_digits, parse_unsigned,
  parse_int,
}

abbrev pub IsDigit : ℕ → Type 0
IsDigit c = (48 ≤ c) × (c ≤ 57)

decimal-digits : (fuel n : ℕ) (acc : List ℕ) → All IsDigit acc → All IsDigit (decimal fuel n acc)
unfolding decimal
decimal-digits zero n acc h = h
decimal-digits (suc fuel) n acc h = elim (Bool-cases (ltb n 10)) [
  | inl e ↦ rw e ((ground arith, ground arith), h)
  | inr e ↦ rw e (decimal-digits fuel (n / 10) _ ((omega arith, omega arith), h))
]

-- The digits that are read first are worth the number that they were printed from.
pub parse_digits-decimal :
    (fuel n : ℕ) (acc : List ℕ)
    → n < fuel
    → parse_digits (decimal fuel n acc) 0 ≡ parse_digits acc n
unfolding decimal parse_digits
parse_digits-decimal zero n acc h = absurd (omega arith)
parse_digits-decimal (suc fuel) n acc h = elim (Bool-cases (ltb n 10)) [
  | inl e ↦
      let digit : (leb 48 (48 + n) && leb (48 + n) 57) ≡ true = ground arith in
      let worth : 0 * 10 + (48 + n - 48) ≡ n = omega arith in rw (e, digit, worth) refl
  | inr e ↦
      let digit : (leb 48 (48 + n % 10) && leb (48 + n % 10) 57) ≡ true = ground arith in
      let worth : n / 10 * 10 + (48 + n % 10 - 48) ≡ n = omega arith in
      rw e
        (parse_digits-decimal fuel (n / 10) _ (ground arith) ∙ rw (digit, worth, parse_digits) refl)
]

-- The characters that the parsers strip are no digits.
abbrev pub Plain : ℕ → Type 0
Plain c = (48 ≤ c) ⊎ (c ≡ 46)

pub drop_commas-Plain : (s : List ℕ) → All Plain s → drop_commas s ≡ s
unfolding drop_commas
drop_commas-Plain [] h = refl
drop_commas-Plain (c ∷ s) h =
    let other : (c == 44) ≡ false = let p = h.0 in ground arith in
    rw other (ap (λ l. c ∷ l) (drop_commas-Plain s h.1))

pub trim_left-Plain : (s : List ℕ) → All Plain s → trim_left s ≡ s
unfolding trim_left
trim_left-Plain [] h = refl
trim_left-Plain (c ∷ s) h =
    let other : is_space c ≡ false = let p = h.0 in ground arith in rw other refl

pub trim_right-Plain : (s : List ℕ) → All Plain s → trim_right s ≡ s
unfolding trim_right
trim_right-Plain [] h = refl
trim_right-Plain (c ∷ []) h =
    let other : is_space c ≡ false = let p = h.0 in ground arith in rw other refl
trim_right-Plain (c ∷ d ∷ s) h = rw (trim_right-Plain (d ∷ s) h.1, trim_right) refl

pub cut_at_point : (s t : List ℕ) → All IsDigit s → cut (s ++ 46 ∷ t) ≡ (s, t)
unfolding cut
cut_at_point [] t h = refl
cut_at_point (c ∷ s) t h =
    let other : (c == 46) ≡ false = let p = h.0 in ground arith in
    rw (other, cut_at_point s t h.1) refl

-- The text of a number: digits, and one at least.
abbrev pub Starts : List ℕ → Type 0
Starts s = 1 ≤ length s

abbrev pub digits : ℕ → List ℕ
digits n = decimal (suc n) n []

decimal-Starts : (fuel n d : ℕ) (acc : List ℕ) → Starts (decimal fuel n (d ∷ acc))
unfolding decimal
decimal-Starts zero n d acc = omega arith
decimal-Starts (suc fuel) n d acc = elim (Bool-cases (ltb n 10)) [
  | inl e ↦ rw e (omega arith)
  | inr e ↦ rw e (decimal-Starts fuel (n / 10) _ _)
]

pub digits-Starts : (n : ℕ) → Starts (digits n)
unfolding decimal
digits-Starts n = elim (Bool-cases (ltb n 10)) [
  | inl e ↦ rw e (omega arith)
  | inr e ↦ rw e (decimal-Starts n (n / 10) _ _)
]

pub digits-IsDigit : (n : ℕ) → All IsDigit (digits n)
digits-IsDigit n = decimal-digits (suc n) n [] tt

-- A number of digits only is read without a sign.
pub parse_int-digit :
    (c n : ℕ) (t : List ℕ)
    → IsDigit c
    → parse_digits (c ∷ t) 0 ≡ some n
    → n ≤ max_int64
    → parse_int (c ∷ t) ≡ some (pos n)
unfolding parse_int parse_unsigned
parse_int-digit c n t h e range =
    let minus : (c == 45) ≡ false = let p = h.0 in ground arith in
    let plus : (c == 43) ≡ false = let p = h.0 in ground arith in
    let fits : leb n max_int64 ≡ true = ground arith in rw (minus, plus, e, fits) refl

-- Two digits at least, as %02d prints.
pub two_digits : (r : ℕ) → r < 100 → pad 2 (digits r) ≡ (48 + r / 10) ∷ (48 + r % 10) ∷ []
unfolding decimal
two_digits zero h = refl
two_digits (suc k) h = elim (Bool-cases (ltb (suc k) 10)) [
  | inl e ↦
      let tens : suc k / 10 ≡ 0 = ground arith in
      let ones : suc k % 10 ≡ suc k = ground arith in rw (e, tens, ones) refl
  | inr e ↦ let tens : ltb (suc k / 10) 10 ≡ true = ground arith in rw (e, tens) refl
]

pub IsDigit-Plain : (s : List ℕ) → All IsDigit s → All Plain s
IsDigit-Plain [] h = tt
IsDigit-Plain (c ∷ s) h = (inl h.0.0, IsDigit-Plain s h.1)
