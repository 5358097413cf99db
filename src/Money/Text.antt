-- ===== src/Money/Text.antt =====
-- internal/money/money.go: String of an amount and of a quantity, ParseMinor and ParseQty.
-- A string is the list of its bytes; TrimSpace is read on ASCII text. An error is `none`.
pub mod Exact
pub mod Digits
pub mod Roundtrip
mod Tests
use trade_execution_operatin.Common.{
  ℕ, zero, suc, ◌+◌, ◌-◌, ◌*◌, ◌/◌, ◌%◌, Bool, true, false, ◌&&◌, ◌||◌, Option, none, some, List,
  [], ◌∷◌, ◌++◌, ltb, leb, ◌==◌, if◌then◌else◌, length, take, replicate,
}
use trade_execution_operatin.Common.Int.{ℤ, pos, negsuc, magnitude}
use trade_execution_operatin.Common.Int64.{max_int64, add64, mul64, neg64, quot64, sub64, is_neg}
use trade_execution_operatin.Money.{Minor, Qty, qty_scale, strip_sign}

-- The decimal digits of a number, before `acc`.
unfoldable pub decimal : ℕ → ℕ → List ℕ → List ℕ
decimal zero n acc = acc
decimal (suc fuel) n acc =
    let more = decimal fuel (n / 10) ((48 + n % 10) ∷ acc) in
    if ltb n 10 then (48 + n) ∷ acc else more

-- strconv.FormatInt and %d; with zeros before, as %02d and %06d.
abbrev pub pad : ℕ → List ℕ → List ℕ
pad width s = replicate (width - length s) 48 ++ s

unfoldable pub format_int : ℕ → ℤ → List ℕ
format_int width z =
    let s = decimal (magnitude z + 1) (magnitude z) [] in
    if is_neg z then 45 ∷ pad (width - 1) s else pad width s

-- int64(m) % d
unfoldable pub rem64 : ℤ → ℤ → ℤ
rem64 m d = sub64 m (mul64 (quot64 m d) d)

-- Minor.String
unfoldable pub minor_string : Minor → List ℕ
minor_string m =
    let a = strip_sign m in
    let s = 36 ∷ (format_int 0 (quot64 a (pos 100)) ++ 46 ∷ format_int 2 (rem64 a (pos 100))) in
    if is_neg m then 45 ∷ s else s

-- strings.TrimRight(s, "0")
unfoldable pub trim_zeros : List ℕ → List ℕ
trim_zeros [] = []
trim_zeros (c ∷ s) = elim (trim_zeros s) [ [] ↦ if c == 48 then [] else c ∷ [] | d ∷ r ↦ c ∷ d ∷ r ]

-- Qty.String
unfoldable pub qty_string : Qty → List ℕ
qty_string q =
    let a = strip_sign q in
    let whole = format_int 0 (quot64 a (pos qty_scale)) in
    let frac = rem64 a (pos qty_scale) in
    let s = if magnitude frac == 0 then whole else whole ++ trim_zeros (46 ∷ format_int 6 frac) in
    if is_neg q then 45 ∷ s else s

-- strings.ReplaceAll(s, ",", "")
unfoldable pub drop_commas : List ℕ → List ℕ
drop_commas [] = []
drop_commas (c ∷ s) = let rest = drop_commas s in if c == 44 then rest else c ∷ rest

abbrev pub has_prefix : ℕ → List ℕ → Bool
has_prefix c [] = false
has_prefix c (d ∷ s) = d == c

abbrev pub trim_prefix : ℕ → List ℕ → List ℕ
trim_prefix c [] = []
trim_prefix c (d ∷ s) = if d == c then s else d ∷ s

-- strings.TrimSpace
abbrev pub is_space : ℕ → Bool
is_space c = (c == 32) || (leb 9 c && leb c 13)

unfoldable pub trim_left : List ℕ → List ℕ
trim_left [] = []
trim_left (c ∷ s) = let rest = trim_left s in if is_space c then rest else c ∷ s

unfoldable pub trim_right : List ℕ → List ℕ
trim_right [] = []
trim_right (c ∷ s) = elim (trim_right s) [
  | [] ↦ if is_space c then [] else c ∷ []
  | d ∷ r ↦ c ∷ d ∷ r
]

-- strings.Cut(s, ".")
unfoldable pub cut : List ℕ → List ℕ × List ℕ
cut [] = ([], [])
cut (c ∷ s) = let rest = cut s in if c == 46 then ([], s) else (c ∷ rest.0, rest.1)

-- strconv.ParseInt(s, 10, 64): an optional sign, one digit at least, and the range.
unfoldable pub parse_digits : List ℕ → ℕ → Option ℕ
parse_digits [] n = some n
parse_digits (c ∷ s) n =
    let rest = parse_digits s (n * 10 + (c - 48)) in if leb 48 c && leb c 57 then rest else none

unfoldable pub parse_unsigned : List ℕ → Option ℕ
parse_unsigned [] = none
parse_unsigned (c ∷ s) = parse_digits (c ∷ s) 0

abbrev pub in_range_pos : Option ℕ → Option ℤ
in_range_pos none = none
in_range_pos (some n) = if leb n max_int64 then some (pos n) else none

abbrev pub in_range_neg : Option ℕ → Option ℤ
in_range_neg none = none
in_range_neg (some zero) = some (pos 0)
in_range_neg (some (suc n)) = if leb n max_int64 then some (negsuc n) else none

unfoldable pub parse_int : List ℕ → Option ℤ
parse_int [] = none
parse_int (c ∷ s) =
    if c == 45
    then in_range_neg (parse_unsigned s)
    else in_range_pos (parse_unsigned (if c == 43 then s else c ∷ s))

-- The part that both parsers share: the parts around the point, at most `places` after it, which
-- count `scale` to the whole.
abbrev pub or_zero_text : List ℕ → List ℕ
or_zero_text [] = 48 ∷ []
or_zero_text (c ∷ s) = c ∷ s

abbrev pub scaled : Bool → ℕ → ℤ → Option ℤ → Option ℤ
scaled neg scale w none = none
scaled neg scale w (some f) =
    let out = add64 (mul64 w (pos scale)) f in some (if neg then neg64 out else out)

unfoldable pub parse_parts : ℕ → ℕ → Bool → List ℕ × List ℕ → Option ℤ
parse_parts places scale neg parts = elim (parse_int (or_zero_text parts.0)) [
  | none ↦ none
  | some w ↦
      if ltb places (length parts.1)
      then none
      else scaled neg scale w (parse_int (take places (parts.1 ++ replicate places 48)))
]

-- ParseMinor
unfoldable pub parse_minor : List ℕ → Option Minor
parse_minor text =
    let s = trim_right (trim_left (trim_prefix 36 (drop_commas text))) in
    parse_parts 2 100 (has_prefix 45 s) (cut (trim_prefix 45 s))

-- ParseQty
unfoldable pub parse_qty : List ℕ → Option Qty
parse_qty text =
    let s = trim_right (trim_left (drop_commas text)) in
    parse_parts 6 qty_scale (has_prefix 45 s) (cut (trim_prefix 45 s))

-- Shares and FromShares
abbrev pub shares : Qty → ℤ
shares q = quot64 q (pos qty_scale)

abbrev pub from_shares : ℤ → Qty
from_shares n = mul64 n (pos qty_scale)
