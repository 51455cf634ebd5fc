-- ===== src/Strings/Decimal/Defs.antt =====
-- Printing and reading an `int64` in base ten.
use hyprbot.Prelude.{
  ℕ, zero, suc, ◌+◌, ◌-◌, ◌*◌, ◌/◌, ◌%◌, ◌^◌, ◌≡◌, refl, Option, none, some, [], ◌∷◌, Text, text, ℤ,
  pos, negsuc, ltb, eqb, ◌||◌, if◌then◌else◌,
}

-- The digits of `n` in front of `out`. The fuel `suc n` is enough, since `n / 10 < n` unless `n` is 0.
unfoldable pub digits : ℕ → ℕ → Text → Text
digits zero n out = out
digits (suc f) n out =
    let rest = digits f (n / 10) ((b'0' + n % 10) ∷ out) in
    if ltb n 10 then (b'0' + n) ∷ out else rest

unfoldable pub format_uint : ℕ → Text
unfolding digits
format_uint n = digits (suc n) n []

-- `%d`.
unfoldable pub format_int : ℤ → Text
unfolding format_uint
format_int (pos n) = format_uint n
format_int (negsuc n) = b'-' ∷ format_uint (suc n)

-- The digits behind a value; `none` at any other code point.
unfoldable pub scan : Text → ℕ → Option ℕ
scan [] n = some n
scan (c ∷ s) n =
    let rest = scan s (n * 10 + (c - b'0')) in if ltb c b'0' || ltb b'9' c then none else rest

unfoldable pub parse_uint : Text → Option ℕ
unfolding scan
parse_uint [] = none
parse_uint (c ∷ s) = scan (c ∷ s) 0

-- The integer with a given sign and absolute value, if it is an `int64`.
unfoldable pub signed : Option ℕ → Option ℤ
signed none = none
signed (some n) = if ltb n (2 ^ 63) then some (pos n) else none

unfoldable pub negated : Option ℕ → Option ℤ
negated none = none
negated (some zero) = some (pos 0)
negated (some (suc n)) = if ltb n (2 ^ 63) then some (negsuc n) else none

-- `strconv.ParseInt(s, 10, 64)`, with `none` for its errors.
unfoldable pub parse_int : Text → Option ℤ
unfolding parse_uint signed negated
parse_int [] = none
parse_int (c ∷ s) =
    if eqb c b'+'
    then signed (parse_uint s)
    else if eqb c b'-'
    then negated (parse_uint s)
    else signed (parse_uint (c ∷ s))

format_test : format_int (negsuc 1001234567889) ≡ text "-1001234567890"
unfolding format_int text
format_test = refl

parse_test : parse_int (text "-1001234567890") ≡ some (negsuc 1001234567889)
unfolding parse_int text
parse_test = refl

parse_overflow : parse_int (text "9223372036854775808") ≡ none
unfolding parse_int text
parse_overflow = refl
