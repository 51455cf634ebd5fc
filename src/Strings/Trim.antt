-- ===== src/Strings/Trim.antt =====
-- `TrimSpace` on texts that are put together, and words.
use hyprbot.Prelude.{
  ℕ, ◌≡◌, refl, ◌∙◌, ap, true, false, none, some, [], ◌∷◌, ◌++◌, ◌≢◌, Text, eqb, arith, All,
  Bool-cases, inl, inr, ◌⊎◌,
}
use hyprbot.Strings.{is_space, trim_left, trim_right, trim_space, cut}

-- No code point of a word is a space.
abbrev pub NoSpace : Text → Type 0
NoSpace = All (λ c. is_space c ≡ false)

-- A word: not empty, and without spaces.
pub record IsWord (w : Text) : Type 0 where
  pub inhabited : w ≢ []
  pub no_space : NoSpace w

trim_left-cons_ne : (c : ℕ) (s : Text) → is_space c ≡ false → trim_left (c ∷ s) ≡ c ∷ s
unfolding trim_left
trim_left-cons_ne c s h = rw h

trim_left_idem : (s : Text) → trim_left (trim_left s) ≡ trim_left s
unfolding trim_left
trim_left_idem [] = refl
trim_left_idem (c ∷ s) = ground (arith, trim_left_idem s)

trim_right_idem : (s : Text) → trim_right (trim_right s) ≡ trim_right s
unfolding trim_right
trim_right_idem [] = refl
trim_right_idem (c ∷ s) = ground (arith, trim_right_idem s)

trim_left_head :
    (s : Text)
    → (trim_left s ≡ []) ⊎ ((c : ℕ) × (r : Text) × (trim_left s ≡ c ∷ r) × (is_space c ≡ false))
unfolding trim_left
trim_left_head [] = inl refl
trim_left_head (c ∷ s) = elim (Bool-cases (is_space c)) [
  | inl e ↦ rw e (trim_left_head s)
  | inr e ↦ inr (c, s, rw e, e)
]

trim_right-cons_ne : (c : ℕ) (s : Text) → is_space c ≡ false → trim_right (c ∷ s) ≡ c ∷ trim_right s
unfolding trim_right
trim_right-cons_ne c s h = ground arith

-- Trimming a trimmed text changes nothing.
pub trim_space_idem : (s : Text) → trim_space (trim_space s) ≡ trim_space s
unfolding trim_space
trim_space_idem s = elim (trim_left_head s) [
  | inl e ↦ rw e (unfold trim_right trim_left in refl)
  | inr (c, r, e, h) ↦
      rw
        (
          e,
          trim_right-cons_ne c r h,
          trim_left-cons_ne c (trim_right r) h,
          trim_right-cons_ne c _ h,
        )
        (ap (λ t. c ∷ t) (trim_right_idem r))
]

-- Trimming a text that begins with a word keeps the word in front.
pub trim_right-append : (w r : Text) → NoSpace w → w ≢ [] → trim_right (w ++ r) ≡ w ++ trim_right r
unfolding trim_right
trim_right-append [] r h n = absurd (n refl)
trim_right-append (c ∷ []) r h n = ground arith
trim_right-append (c ∷ d ∷ w) r h n = ground (arith, trim_right-append (d ∷ w) r h.1 (cc))

pub trim_space-word : (w r : Text) → IsWord w → trim_space (w ++ r) ≡ w ++ trim_right r
unfolding trim_space
trim_space-word [] r h = absurd (h.inhabited refl)
trim_space-word (c ∷ w) r h =
    ap trim_right (trim_left-cons_ne c (w ++ r) h.no_space.0)
    ∙ trim_right-append (c ∷ w) r h.no_space h.inhabited

-- Trimming drops a leading space.
pub trim_space-cons : (c : ℕ) (s : Text) → is_space c ≡ true → trim_space (c ∷ s) ≡ trim_space s
unfolding trim_space trim_left
trim_space-cons c s h = rw h

pub cut-append :
    (sep : ℕ) (w r : Text) → All (λ c. eqb c sep ≡ false) w → cut sep (w ++ sep ∷ r) ≡ some (w, r)
unfolding cut
cut-append sep [] r h = ground arith
cut-append sep (c ∷ w) r h = ground (arith, cut-append sep w r h.1)

pub cut-word_end : (sep : ℕ) (w : Text) → All (λ c. eqb c sep ≡ false) w → cut sep w ≡ none
unfolding cut
cut-word_end sep [] h = refl
cut-word_end sep (c ∷ w) h = ground (arith, cut-word_end sep w h.1)

-- The blank is a space.
pub NoSpace-ne_blank : (w : Text) → NoSpace w → All (λ c. eqb c 32 ≡ false) w
unfolding is_space
NoSpace-ne_blank [] h = tt
NoSpace-ne_blank (c ∷ w) h = (ground arith, NoSpace-ne_blank w h.1)

-- `trim_right` drops a code point only where nothing is left behind it.
pub trim_right-cons :
    (c : ℕ) (s : Text)
    → ((trim_right (c ∷ s) ≡ []) × (trim_right s ≡ [])) ⊎ (trim_right (c ∷ s) ≡ c ∷ trim_right s)
unfolding trim_right
trim_right-cons c s = ground arith

trim_left-trim_right : (s : Text) → trim_right (trim_left (trim_right s)) ≡ trim_right (trim_left s)
unfolding trim_left trim_right
trim_left-trim_right [] = refl
trim_left-trim_right (c ∷ s) = ground (arith, trim_left-trim_right s, trim_right_idem s)

-- Trimming the right end first makes no difference.
pub trim_space-trim_right : (s : Text) → trim_space (trim_right s) ≡ trim_space s
unfolding trim_space
trim_space-trim_right s = trim_left-trim_right s

pub trim_space-nil : trim_space [] ≡ []
unfolding trim_space trim_left trim_right
trim_space-nil = refl
