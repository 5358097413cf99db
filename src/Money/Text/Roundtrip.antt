-- ===== src/Money/Text/Roundtrip.antt =====
-- Amounts of internal/money/money.go that are printed and read: what is printed is read
-- back when it is not negative, and is refused when it is.
use trade_execution_operatin.Common.{
  ℕ, suc, ◌+◌, ◌-◌, ◌*◌, ◌/◌, ◌%◌, ◌<◌, ◌≤◌, ◌≡◌, refl, ap, Bool, true, false, ◌&&◌, none, some,
  List, [], ◌∷◌, ◌++◌, ltb, leb, ◌==◌, length, inl, inr, ◌⊎◌, arith, All, All-append,
}
use trade_execution_operatin.Common.Int.{ℤ, pos}
use trade_execution_operatin.Common.Int64.{max_int64, add64, mul64, is_neg}
use trade_execution_operatin.Money.{Minor}
use trade_execution_operatin.Money.Text.Exact.{
  quot64_hundred, rem64_hundred, mul64_nonneg, add64_nonneg,
}
use trade_execution_operatin.Money.Text.Digits.{
  IsDigit, Plain, Starts, digits, parse_digits-decimal, drop_commas-Plain, trim_left-Plain,
  trim_right-Plain, cut_at_point, digits-Starts, digits-IsDigit, parse_int-digit, two_digits,
  IsDigit-Plain,
}
use trade_execution_operatin.Money.Text.{
  pad, format_int, minor_string, drop_commas, has_prefix, trim_prefix, trim_left, trim_right, cut,
  parse_digits, parse_unsigned, parse_int, or_zero_text, parse_parts, parse_minor,
}

-- The form that is printed for an amount that is not negative.
format_int-pos : (width n : ℕ) → format_int width (pos n) ≡ pad width (digits n)
unfolding format_int
format_int-pos width n =
    let up : ltb (n + 0) 0 ≡ false = ground arith in
    let enough : n + 1 ≡ suc n = omega arith in rw (up, enough) refl

minor_string_form :
    (n : ℕ)
    → n ≤ max_int64
    → minor_string (pos n)
      ≡ 36 ∷ (digits (n / 100) ++ 46 ∷ (48 + n % 100 / 10) ∷ (48 + n % 100 % 10) ∷ [])
unfolding minor_string
minor_string_form n h =
    let up : ltb (n + 0) 0 ≡ false = ground arith in
    let no_pad : 0 - length (digits (n / 100)) ≡ 0 = omega arith in
    rw
      (
        up,
        quot64_hundred n h,
        rem64_hundred n h,
        format_int-pos 0 (n / 100),
        format_int-pos 2 (n % 100),
        two_digits (n % 100) (omega arith),
        no_pad,
      )
      refl

-- The parts of such a text are read as the numbers that they print.
parse_int-IsDigit :
    (s : List ℕ) (n : ℕ)
    → Starts s
    → All IsDigit s
    → parse_digits s 0 ≡ some n
    → n ≤ max_int64
    → parse_int (or_zero_text s) ≡ some (pos n)
parse_int-IsDigit [] n some_digit h e range = absurd (omega arith)
parse_int-IsDigit (c ∷ t) n some_digit h e range = parse_int-digit c n t h.0 e range

parse_digits_two : (f : ℕ) → f < 100 → parse_digits ((48 + f / 10) ∷ (48 + f % 10) ∷ []) 0 ≡ some f
unfolding parse_digits
parse_digits_two f h =
    let tens : (leb 48 (48 + f / 10) && leb (48 + f / 10) 57) ≡ true = ground arith in
    let ones : (leb 48 (48 + f % 10) && leb (48 + f % 10) 57) ≡ true = ground arith in
    rw (tens, ones) (ap some (omega arith))

parse_parts_two :
    (s : List ℕ) (a b : ℕ) (w f : ℤ)
    → parse_int (or_zero_text s) ≡ some w
    → parse_int (a ∷ b ∷ []) ≡ some f
    → parse_parts 2 100 false (s, a ∷ b ∷ []) ≡ some (add64 (mul64 w (pos 100)) f)
unfolding parse_parts
parse_parts_two s a b w f whole cents = rw (parse_parts, whole, cents) refl

parse_parts-digits :
    (w f : ℕ)
    → w ≤ max_int64
    → f < 100
    → parse_parts 2 100 false (digits w, (48 + f / 10) ∷ (48 + f % 10) ∷ [])
      ≡ some (add64 (mul64 (pos w) (pos 100)) (pos f))
unfolding parse_digits
parse_parts-digits w f hw hf =
    let read : parse_digits (digits w) 0 ≡ some w =
      parse_digits-decimal (suc w) w [] (omega arith) in
    parse_parts_two (digits w) (48 + f / 10) (48 + f % 10) (pos w) (pos f)
      (parse_int-IsDigit (digits w) w (digits-Starts w) (digits-IsDigit w) read hw)
      (parse_int-digit (48 + f / 10) f ((48 + f % 10) ∷ []) (omega arith, omega arith)
        (parse_digits_two f hf) (omega arith))

digits_pair : (n : ℕ) → n < 100 → All IsDigit ((48 + n / 10) ∷ (48 + n % 10) ∷ [])
digits_pair n h = ((omega arith, omega arith), ((omega arith, omega arith), tt))

-- A text that starts with a digit has no minus to strip.
no_minus : (s : List ℕ) → Starts s → All IsDigit s → (t : List ℕ) → has_prefix 45 (s ++ t) ≡ false
no_minus [] some_digit h t = absurd (omega arith)
no_minus (c ∷ s) some_digit h t = let p = h.0.0 in ground arith

trim_minus :
    (s : List ℕ) → Starts s → All IsDigit s → (t : List ℕ) → trim_prefix 45 (s ++ t) ≡ s ++ t
trim_minus [] some_digit h t = absurd (omega arith)
trim_minus (c ∷ s) some_digit h t =
    let other : (c == 45) ≡ false = let p = h.0.0 in ground arith in rw other refl

-- Reading a text of digits, a point and two digits.
parse_minor-digits :
    (w f : ℕ)
    → w ≤ max_int64
    → f < 100
    → parse_minor (36 ∷ (digits w ++ 46 ∷ (48 + f / 10) ∷ (48 + f % 10) ∷ []))
      ≡ some (add64 (mul64 (pos w) (pos 100)) (pos f))
unfolding parse_minor drop_commas
parse_minor-digits w f hw hf =
    let cents = (48 + f / 10) ∷ (48 + f % 10) ∷ [] in
    let plain : All Plain (digits w ++ 46 ∷ cents) =
      All-append Plain (digits w) (46 ∷ cents) (IsDigit-Plain (digits w) (digits-IsDigit w))
        (inr refl, IsDigit-Plain cents (digits_pair f hf)) in
    let starts = digits-Starts w in
    let numbers = digits-IsDigit w in
    rw
      (
        drop_commas-Plain _ plain,
        trim_left-Plain _ plain,
        trim_right-Plain _ plain,
        no_minus (digits w) starts numbers (46 ∷ cents),
        trim_minus (digits w) starts numbers (46 ∷ cents),
        cut_at_point (digits w) cents numbers,
      )
      (parse_parts-digits w f hw hf)

-- Every amount that is not negative is read back from its own text.
pub parse_minor-minor_string :
    (n : ℕ) → n ≤ max_int64 → parse_minor (minor_string (pos n)) ≡ some (pos n)
parse_minor-minor_string n h =
    let whole : n / 100 * 100 ≤ max_int64 = omega arith in
    let sum : n / 100 * 100 + n % 100 ≡ n = omega arith in
    rw
      (
        minor_string_form n h,
        parse_minor-digits (n / 100) (n % 100) (omega arith) (omega arith),
        mul64_nonneg (n / 100) 100 whole,
        add64_nonneg (n / 100 * 100) (n % 100) (omega arith),
        sum,
      )
      refl

-- A text that starts with "-$" is refused, whatever follows.
nil_or_cons : (s : List ℕ) → (s ≡ []) ⊎ ((d : ℕ) × (r : List ℕ) × (s ≡ d ∷ r))
nil_or_cons [] = inl refl
nil_or_cons (d ∷ r) = inr (d, r, refl)

trim_right_dollar : (s : List ℕ) → (t : List ℕ) × (trim_right (45 ∷ 36 ∷ s) ≡ 45 ∷ 36 ∷ t)
unfolding trim_right
trim_right_dollar s = elim (nil_or_cons (trim_right s)) [
  | inl e ↦ ([], rw e refl)
  | inr (d, r, e) ↦ (d ∷ r, rw e refl)
]

parse_parts_dollar : (neg : Bool) (s : List ℕ) → parse_parts 2 100 neg (cut (36 ∷ s)) ≡ none
unfolding parse_parts cut parse_int parse_unsigned parse_digits
parse_parts_dollar neg s = refl

parse_minor_dollar : (s : List ℕ) → parse_minor (45 ∷ 36 ∷ s) ≡ none
unfolding parse_minor drop_commas trim_left
parse_minor_dollar s =
    let (t, e) = trim_right_dollar (drop_commas s) in rw e (parse_parts_dollar true t)

-- An amount below zero is printed as a text that is refused.
pub parse_minor-minor_string_neg :
    (m : Minor) → is_neg m ≡ true → parse_minor (minor_string m) ≡ none
unfolding minor_string
parse_minor-minor_string_neg m h = rw h (parse_minor_dollar _)
