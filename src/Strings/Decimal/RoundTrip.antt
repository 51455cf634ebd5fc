-- ===== src/Strings/Decimal/RoundTrip.antt =====
-- Printed integers, and what reading makes of them.
use mathlib.Core.Option.{some-injective}
use hyprbot.Prelude.{
  false, ℕ, zero, suc, ◌+◌, ◌/◌, ◌%◌, ◌≤◌, ◌<◌, ◌≡◌, refl, sym, ◌∙◌, ap, ◌≢◌, some, [], ◌∷◌, Text,
  ℤ, pos, negsuc, IsInt64, ltb, eqb, arith, All, Bool-cases, inl, inr,
}
use hyprbot.Strings.Decimal.Defs.{
  digits, format_uint, format_int, scan, parse_uint, signed, parse_int,
}

abbrev pub IsDigit : ℕ → Type 0
IsDigit c = (b'0' ≤ c) × (c ≤ b'9')

scan-digits : (f n : ℕ) (out : Text) → n < f → scan (digits f n out) 0 ≡ scan out n
unfolding scan digits
scan-digits zero n out h = absurd (omega arith)
scan-digits (suc f) n out h = ground (arith, scan-digits f (n / 10) ((b'0' + n % 10) ∷ out))

-- The digits begin with a digit.
digits_head :
    (f n : ℕ) (out : Text) → n < f → (c : ℕ) × (s : Text) × (digits f n out ≡ c ∷ s) × IsDigit c
unfolding digits
digits_head zero n out h = absurd (omega arith)
digits_head (suc f) n out h = elim (Bool-cases (ltb n 10)) [
  | inl e ↦ rw e (b'0' + n, out, refl, ground arith)
  | inr e ↦ rw e (digits_head f (n / 10) ((b'0' + n % 10) ∷ out) (ground arith))
]

digits-All : (f n : ℕ) (out : Text) → All IsDigit out → All IsDigit (digits f n out)
unfolding digits
digits-All zero n out h = h
digits-All (suc f) n out h = ground (arith, digits-All f (n / 10) ((b'0' + n % 10) ∷ out))

pub format_uint-All : (n : ℕ) → All IsDigit (format_uint n)
unfolding format_uint
format_uint-All n = digits-All (suc n) n [] tt

format_uint_head : (n : ℕ) → (c : ℕ) × (s : Text) × (format_uint n ≡ c ∷ s) × IsDigit c
unfolding format_uint
format_uint_head n = digits_head (suc n) n [] (omega arith)

scan-format_uint : (n : ℕ) → scan (format_uint n) 0 ≡ some n
unfolding format_uint
scan-format_uint n = scan-digits (suc n) n [] (omega arith) ∙ unfold scan in refl

pub parse_uint-format_uint : (n : ℕ) → parse_uint (format_uint n) ≡ some n
unfolding parse_uint
parse_uint-format_uint n =
    let (c, s, e, d) = format_uint_head n in rw e (sym (ap (λ t. scan t 0) e) ∙ scan-format_uint n)

parse_int_unsigned :
    (c : ℕ) (s : Text) → IsDigit c → parse_int (c ∷ s) ≡ signed (parse_uint (c ∷ s))
unfolding parse_int
parse_int_unsigned c s h = ground arith

-- Every `int64` is read back from its decimal print.
pub parse_int-format_int : (x : ℤ) → IsInt64 x → parse_int (format_int x) ≡ some x
unfolding format_int
parse_int-format_int (pos n) h =
    let (c, s, e, d) = format_uint_head n in
    rw e (parse_int_unsigned c s d)
    ∙ ap signed (ap parse_uint (sym e) ∙ parse_uint-format_uint n)
    ∙ unfold signed in ground arith
parse_int-format_int (negsuc n) h = unfold parse_int in rw parse_uint-format_uint (ground arith)

format_uint_injective : (m n : ℕ) → format_uint m ≡ format_uint n → m ≡ n
format_uint_injective m n e =
    some-injective m n (sym (scan-format_uint m) ∙ ap (λ t. scan t 0) e ∙ scan-format_uint n)

pos_ne_negsuc : (m n : ℕ) → format_int (pos m) ≢ format_int (negsuc n)
unfolding format_int
pos_ne_negsuc m n e = let (c, s, p, d) = format_uint_head m in ground arith

-- Different integers print differently.
pub format_int_injective : (a b : ℤ) → format_int a ≡ format_int b → a ≡ b
format_int_injective (pos m) (pos n) e = ap pos (format_uint_injective m n (unfold format_int in e))
format_int_injective (pos m) (negsuc n) e = absurd (pos_ne_negsuc m n e)
format_int_injective (negsuc m) (pos n) e = absurd (pos_ne_negsuc n m (sym e))
format_int_injective (negsuc m) (negsuc n) e =
    unfold format_int in ground (arith, format_uint_injective (suc m) (suc n))

digits_ne_colon : (s : Text) → All IsDigit s → All (λ c. eqb c b':' ≡ false) s
digits_ne_colon [] h = tt
digits_ne_colon (c ∷ s) h = (ground arith, digits_ne_colon s h.1)

-- A printed integer holds no colon.
pub format_int-ne_colon : (x : ℤ) → All (λ c. eqb c b':' ≡ false) (format_int x)
unfolding format_int
format_int-ne_colon (pos n) = digits_ne_colon _ (format_uint-All n)
format_int-ne_colon (negsuc n) = (refl, digits_ne_colon _ (format_uint-All (suc n)))
