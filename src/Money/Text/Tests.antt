-- ===== src/Money/Text/Tests.antt =====
-- Texts of amounts and of quantities, as the parsers of internal/money/money.go read them.
use trade_execution_operatin.Common.{◌≡◌, refl, none, some, [], ◌∷◌, arith}
use trade_execution_operatin.Common.Int.{pos, negsuc}
use trade_execution_operatin.Money.Text.{
  decimal, format_int, rem64, minor_string, trim_zeros, qty_string, drop_commas, trim_left,
  trim_right, cut, parse_digits, parse_unsigned, parse_int, parse_parts, parse_minor, parse_qty,
}
use trade_execution_operatin.Common.Int64.{wrap64, quot64}
use trade_execution_operatin.Common.Int.{◌+ℤ◌, ◌-ℤ◌, ◌*ℤ◌}
use trade_execution_operatin.Money.Text.Roundtrip.{
  parse_minor-minor_string, parse_minor-minor_string_neg,
}

parse_minor-minor_string_example : parse_minor (minor_string (pos 15025)) ≡ some (pos 15025)
parse_minor-minor_string_example = parse_minor-minor_string 15025 (omega arith)

parse_minor-minor_string_neg_example : parse_minor (minor_string (negsuc 99)) ≡ none
parse_minor-minor_string_neg_example = parse_minor-minor_string_neg (negsuc 99) refl

-- "$1,900"
dollars_with_comma : parse_minor (36 ∷ 49 ∷ 44 ∷ 57 ∷ 48 ∷ 48 ∷ []) ≡ some (pos 190000)
unfolding parse_minor drop_commas trim_left trim_right cut parse_parts parse_int parse_unsigned
    parse_digits wrap64 ◌+ℤ◌ ◌*ℤ◌
dollars_with_comma = refl

-- "1.-5": the sign of the fraction is read.
sign_after_point : parse_minor (49 ∷ 46 ∷ 45 ∷ 53 ∷ []) ≡ some (pos 95)
unfolding parse_minor drop_commas trim_left trim_right cut parse_parts parse_int parse_unsigned
    parse_digits wrap64 ◌+ℤ◌ ◌*ℤ◌
sign_after_point = refl

-- "184467440737095517": the dollars fit an int64, and the cents wrap to 84.
dollars_that_wrap :
    parse_minor
      (49 ∷ 56 ∷ 52 ∷ 52 ∷ 54 ∷ 55 ∷ 52 ∷ 52 ∷ 48 ∷ 55 ∷ 51 ∷ 55 ∷ 48 ∷ 57 ∷ 53 ∷ 53 ∷ 49 ∷ 55 ∷ [])
    ≡ some (pos 84)
unfolding parse_minor drop_commas trim_left trim_right cut parse_parts parse_int parse_unsigned
    parse_digits wrap64 ◌+ℤ◌ ◌*ℤ◌
dollars_that_wrap = refl

-- "-1.5" shares, printed and read.
quantity_and_back : parse_qty (qty_string (negsuc 1499999)) ≡ some (negsuc 1499999)
unfolding parse_qty qty_string trim_zeros format_int decimal rem64 quot64 drop_commas trim_left
    trim_right cut parse_parts parse_int parse_unsigned parse_digits wrap64 ◌+ℤ◌ ◌-ℤ◌ ◌*ℤ◌
quantity_and_back = refl
