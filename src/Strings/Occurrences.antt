-- ===== src/Strings/Occurrences.antt =====
-- Where a text occurs in another one, before and after `strings.ReplaceAll`.
use hyprbot.Strings.{strip_prefix, has_prefix, contains}
use hyprbot.Prelude.{
  inl, Bool-cases, inr, ◌⊎◌, refl, arith, eqb, false, if◌then◌else◌, true, ◌++◌, ◌∷◌, is_empty, All,
  ◌≡◌, [], ℕ, Text,
}

abbrev pub Lacks : ℕ → Text → Type 0
Lacks x = All (λ c. eqb c x ≡ false)

pub has_prefix-nil : (s : Text) → has_prefix s [] ≡ true
unfolding has_prefix strip_prefix
has_prefix-nil s = refl

pub has_prefix-cons :
    (c p : ℕ) (s ps : Text)
    → has_prefix (c ∷ s) (p ∷ ps) ≡ (if eqb p c then has_prefix s ps else false)
unfolding has_prefix strip_prefix
has_prefix-cons c p s ps = ground arith

pub has_prefix-nil_cons : (p : ℕ) (ps : Text) → has_prefix [] (p ∷ ps) ≡ false
unfolding has_prefix strip_prefix
has_prefix-nil_cons p ps = refl

pub contains-cons :
    (c : ℕ) (s t : Text)
    → contains (c ∷ s) t ≡ (if has_prefix (c ∷ s) t then true else contains s t)
unfolding contains
contains-cons c s t = refl

-- A prefix before a code point that it lacks.
pub prefix_before :
    (x : ℕ) (u v t : Text) → Lacks x t → has_prefix (u ++ x ∷ v) t ≡ true → has_prefix u t ≡ true
prefix_before x u v [] l h = has_prefix-nil u
prefix_before x [] v (p ∷ t) l h = absurd (ground (arith, has_prefix-cons x p v t))
prefix_before x (c ∷ u) v (p ∷ t) l h =
    ground (
      arith,
      has_prefix-cons c p (u ++ x ∷ v) t,
      has_prefix-cons c p u t,
      prefix_before x u v t l.1,
    )

-- An occurrence of a text lies on one side of a code point that it lacks.
pub contains_apart :
    (x : ℕ) (u v t : Text)
    → Lacks x t
    → is_empty t ≡ false
    → contains (u ++ x ∷ v) t ≡ true
    → (contains u t ≡ true) ⊎ (contains v t ≡ true)
contains_apart x u v [] l e h = absurd (ground arith)
contains_apart x [] v (p ∷ t) l e h =
    inr (ground (arith, contains-cons x v (p ∷ t), has_prefix-cons x p v t))
contains_apart x (c ∷ u) v (p ∷ t) l e h =
    elim (Bool-cases (has_prefix (c ∷ (u ++ x ∷ v)) (p ∷ t))) [
      | inl q ↦
          inl (ground (arith, prefix_before x (c ∷ u) v (p ∷ t) l q, contains-cons c u (p ∷ t)))
      | inr q ↦
          elim (contains_apart x u v (p ∷ t) l e
            (ground (arith, contains-cons c (u ++ x ∷ v) (p ∷ t)))) [
              | inl k ↦ inl (ground (arith, contains-cons c u (p ∷ t)))
              | inr k ↦ inr k
            ]
    ]

pub prefix-append : (u v t : Text) → has_prefix u t ≡ true → has_prefix (u ++ v) t ≡ true
prefix-append u v [] h = has_prefix-nil (u ++ v)
prefix-append [] v (p ∷ t) h = absurd (ground (arith, has_prefix-nil_cons p t))
prefix-append (c ∷ u) v (p ∷ t) h =
    ground (arith, has_prefix-cons c p u t, has_prefix-cons c p (u ++ v) t, prefix-append u v t)

pub contains-append :
    (u v t : Text) → is_empty t ≡ false → contains u t ≡ true → contains (u ++ v) t ≡ true
contains-append [] v t e h = absurd (unfold contains in (ground arith))
contains-append (c ∷ u) v t e h = ground (
  arith,
  contains-cons c u t,
  contains-cons c (u ++ v) t,
  prefix-append (c ∷ u) v t,
  contains-append u v t e,
)

pub contains-append_right : (u v t : Text) → contains v t ≡ true → contains (u ++ v) t ≡ true
contains-append_right [] v t h = h
contains-append_right (c ∷ u) v t h =
    ground (arith, contains-cons c (u ++ v) t, contains-append_right u v t h)
