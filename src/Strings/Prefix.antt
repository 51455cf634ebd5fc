-- ===== src/Strings/Prefix.antt =====
-- Prefixes, and fields between colons.
use mathlib.Core.Option.{some-injective}
use hyprbot.Prelude.{◌≡◌, refl, sym, ◌∙◌, ap, false, some, [], ◌∷◌, ◌++◌, Text, eqb, arith, All}
use hyprbot.Strings.{strip_prefix, cut}
use hyprbot.Strings.Trim.{cut-append}

pub strip_prefix-append : (p s : Text) → strip_prefix p (p ++ s) ≡ some s
unfolding strip_prefix
strip_prefix-append [] s = refl
strip_prefix-append (c ∷ p) s = ground (arith, strip_prefix-append p s)

-- What follows a common prefix can be told apart.
pub append_cancel : (p s t : Text) → p ++ s ≡ p ++ t → s ≡ t
append_cancel p s t e =
    some-injective s t
      (sym (strip_prefix-append p s) ∙ ap (strip_prefix p) e ∙ strip_prefix-append p t)

abbrev pub NoColon : Text → Type 0
NoColon = All (λ c. eqb c b':' ≡ false)

-- A field that ends at the first colon, and what follows it, can be told apart.
pub field_injective :
    (w w' r r' : Text)
    → NoColon w
    → NoColon w'
    → w ++ b':' ∷ r ≡ w' ++ b':' ∷ r'
    → (w ≡ w') × (r ≡ r')
field_injective w w' r r' h h' e = (ap (λ p. p.0) same, ap (λ p. p.1) same)
  where
    same : ◌≡◌ {A = Text × Text} (w, r) (w', r')
    same =
        some-injective (w, r) (w', r')
          (sym (cut-append b':' w r h) ∙ ap (cut b':') e ∙ cut-append b':' w' r' h')
