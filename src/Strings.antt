-- ===== src/Strings.antt =====
-- The functions of Go's packages `strings` and `strconv` that the bot calls, on texts as code points.
pub mod Trim
pub mod Decimal
pub mod Prefix
pub mod Occurrences
pub mod Redaction
use hyprbot.Prelude.{
  ◌-◌, length, zero, suc, ℕ, ◌+◌, ◌≡◌, refl, Bool, true, false, ◌&&◌, ◌||◌, Option, none, some,
  List, [], ◌∷◌, Text, text, text_eq, leb, eqb, if◌then◌else◌, is_empty, ◌++◌,
}

-- `unicode.IsSpace`.
unfoldable pub is_space : ℕ → Bool
is_space c =
    leb 9 c && leb c 13
    || eqb c 0x20
    || eqb c 0x85
    || eqb c 0xa0
    || eqb c 0x1680
    || leb 0x2000 c && leb c 0x200a
    || eqb c 0x2028
    || eqb c 0x2029
    || eqb c 0x202f
    || eqb c 0x205f
    || eqb c 0x3000

unfoldable pub trim_left : Text → Text
trim_left [] = []
trim_left (c ∷ s) = if is_space c then trim_left s else c ∷ s

unfoldable pub trim_right : Text → Text
trim_right [] = []
trim_right (c ∷ s) = let rest = trim_right s in if is_empty rest && is_space c then [] else c ∷ rest

-- `strings.TrimSpace`.
unfoldable pub trim_space : Text → Text
unfolding trim_left trim_right is_space
trim_space s = trim_right (trim_left s)

-- `strings.TrimSpace(s) == ""`.
unfoldable pub is_blank : Text → Bool
unfolding trim_space
is_blank s = is_empty (trim_space s)

-- The text before and after the first `sep`: `strings.SplitN(s, sep, 2)`, and the two slices
-- around `strings.IndexByte(s, sep)`.
unfoldable pub cut : ℕ → Text → Option (Text × Text)
cut sep [] = none
cut sep (c ∷ s) =
    let rest = cut sep s in
    if eqb c sep then some ([], s) else elim rest [ none ↦ none | some (a, b) ↦ some (c ∷ a, b) ]

-- `strings.TrimPrefix` of a text that has the prefix, and `none` where `strings.HasPrefix` fails.
unfoldable pub strip_prefix : Text → Text → Option Text
strip_prefix [] s = some s
strip_prefix (p ∷ ps) [] = none
strip_prefix (p ∷ ps) (c ∷ s) = let rest = strip_prefix ps s in if eqb p c then rest else none

unfoldable pub has_prefix : Text → Text → Bool
unfolding strip_prefix
has_prefix s prefix = elim (strip_prefix prefix s) [ none ↦ false | some _ ↦ true ]

-- `strings.Join(lines, "\n")`
unfoldable pub join_lines : List Text → Text
join_lines [] = []
join_lines (l ∷ []) = l
join_lines (l ∷ m ∷ ls) = l ++ 10 ∷ join_lines (m ∷ ls)

-- `strings.Contains`
unfoldable pub contains : Text → Text → Bool
unfolding has_prefix
contains [] sub = is_empty sub
contains (c ∷ s) sub = let rest = contains s sub in if has_prefix (c ∷ s) sub then true else rest

-- `strings.ReplaceAll` of a text that is not empty, where `skip` code points still belong to the
-- occurrence that was replaced last.
unfoldable pub replace_from : Text → Text → ℕ → Text → Text
replace_from old new skip [] = []
replace_from old new (suc skip) (c ∷ s) = replace_from old new skip s
replace_from old new zero (c ∷ s) =
    let replaced = new ++ replace_from old new (length old - 1) s in
    let kept = c ∷ replace_from old new zero s in if has_prefix (c ∷ s) old then replaced else kept

unfoldable pub replace_all : Text → Text → Text → Text
unfolding replace_from
replace_all old new s = replace_from old new zero s

-- The lower-case letter of one code point, as far as a comparison with ASCII words can tell:
-- U+0130 and U+212A are the only ones outside ASCII that `unicode.ToLower` takes into ASCII.
unfoldable pub lower : ℕ → ℕ
lower c =
    if leb b'A' c && leb c b'Z'
    then c + 32
    else if eqb c 0x130
    then b'i'
    else if eqb c 0x212a
    then b'k'
    else c

-- `strings.ToLower`.
unfoldable pub to_lower : Text → Text
unfolding lower
to_lower [] = []
to_lower (c ∷ s) = lower c ∷ to_lower s

replace_test : replace_all (text "aa") (text "b") (text "aaacaa") ≡ text "bacb"
unfolding replace_all has_prefix strip_prefix text
replace_test = refl

-- The upper-case letter of one code point, as far as a comparison with ASCII words can tell: U+0131 and
-- U+017F are the only ones outside ASCII that `unicode.ToUpper` takes into ASCII.
unfoldable pub upper : ℕ → ℕ
upper c =
    if leb b'a' c && leb c b'z'
    then c - 32
    else if eqb c 0x131
    then b'I'
    else if eqb c 0x17f
    then b'S'
    else c

-- `strings.ToUpper`.
unfoldable pub to_upper : Text → Text
unfolding upper
to_upper [] = []
to_upper (c ∷ s) = upper c ∷ to_upper s

-- `strings.TrimLeft(s, "/")`.
unfoldable pub trim_left_slashes : Text → Text
trim_left_slashes [] = []
trim_left_slashes (c ∷ s) = if eqb c b'/' then trim_left_slashes s else c ∷ s

unfoldable pub trim_right_slashes : Text → Text
trim_right_slashes [] = []
trim_right_slashes (c ∷ s) =
    let rest = trim_right_slashes s in if is_empty rest && eqb c b'/' then [] else c ∷ rest

-- `strings.Trim(s, "/")`.
unfoldable pub trim_slashes : Text → Text
unfolding trim_left_slashes trim_right_slashes
trim_slashes s = trim_right_slashes (trim_left_slashes s)

trim_test : trim_space (text "  a b \n") ≡ text "a b"
unfolding trim_space text
trim_test = refl

cut_test : cut 32 (text "ab c d") ≡ some (text "ab", text "c d")
unfolding cut text
cut_test = refl
