-- ===== src/Strings/Redaction.antt =====
-- `strings.ReplaceAll` with a replacement that holds a text between angle brackets: it makes no new
-- occurrence of a text without such brackets.
pub mod Itself
use hyprbot.Strings.{strip_prefix, has_prefix, contains, replace_from, replace_all}
use hyprbot.Strings.Occurrences.{
  Lacks, has_prefix-nil, has_prefix-cons, has_prefix-nil_cons, contains-cons, prefix_before,
  contains_apart, prefix-append, contains-append, contains-append_right,
}
use hyprbot.Prelude.{
  ap, ◌∙◌, append_assoc, subst, inr, inl, Bool-cases, ◌⊎◌, refl, arith, ◌-◌, [], zero, length,
  false, true, ◌++◌, ◌∷◌, ◌≡◌, is_empty, suc, ℕ, Text,
}

drop : ℕ → Text → Text
drop zero s = s
drop (suc n) [] = []
drop (suc n) (c ∷ s) = drop n s

prefix_split : (p s : Text) → has_prefix s p ≡ true → s ≡ p ++ drop (length p) s
unfolding drop
prefix_split [] s h = refl
prefix_split (p ∷ ps) [] h = absurd (ground (arith, has_prefix-nil_cons p ps))
prefix_split (p ∷ ps) (c ∷ s) h = ground (arith, has_prefix-cons c p s ps, prefix_split ps s)

match_split :
    (old : Text) (c : ℕ) (s : Text)
    → is_empty old ≡ false
    → has_prefix (c ∷ s) old ≡ true
    → c ∷ s ≡ old ++ drop (length old - 1) s
unfolding drop
match_split [] c s e h = absurd (ground arith)
match_split (o ∷ os) c s e h =
    let less : suc (length os) - 1 ≡ length os = omega arith in
    rw less (prefix_split (o ∷ os) (c ∷ s) h)

-- Both angle brackets are missing.
abbrev pub NoAngle : Text → Type 0
NoAngle t = Lacks b'<' t × Lacks b'>' t

module _ (old new : Text) (filled : is_empty old ≡ false) where
  -- The text that `replace_from` reads next.
  replace_cases :
      (c : ℕ) (s : Text)
      → ((c ∷ s ≡ old ++ drop (length old - 1) s)
          × (replace_from old new 0 (c ∷ s) ≡ new ++ replace_from old new (length old - 1) s))
        ⊎ ((has_prefix (c ∷ s) old ≡ false)
            × (replace_from old new 0 (c ∷ s) ≡ c ∷ replace_from old new 0 s))
  unfolding replace_from
  replace_cases c s = elim (Bool-cases (has_prefix (c ∷ s) old)) [
    | inl q ↦ inl (match_split old c s filled q, rw q refl)
    | inr q ↦ inr (q, rw q refl)
  ]

-- What stands before an opening bracket in the replacement stands in the replaced text too.
module _ (a x m b : Text) (filled : is_empty (a ++ (x ++ b)) ≡ false) where
  abbrev old : Text
  old = a ++ (x ++ b)

  abbrev new : Text
  new = a ++ b'<' ∷ (m ++ b'>' ∷ b)

  -- A replacement and what follows it, up to the bracket.
  new-append : (r : Text) → new ++ r ≡ a ++ b'<' ∷ (m ++ b'>' ∷ (b ++ r))
  new-append r = append_assoc a _ r ∙ ap (λ y. a ++ b'<' ∷ y) (append_assoc m (b'>' ∷ b) r)

  prefix-replaced :
      (r r' t : Text)
      → Lacks b'<' t
      → has_prefix (new ++ r) t ≡ true
      → has_prefix (old ++ r') t ≡ true
  prefix-replaced r r' t l h = rw (append_assoc a (x ++ b) r') (
      prefix-append a _ t (
        prefix_before b'<' a (m ++ b'>' ∷ (b ++ r)) t l
          (subst (λ y. has_prefix y t ≡ true) (new-append r) h)))

  prefix-replace_from :
      (k : ℕ) (s t : Text)
      → Lacks b'<' t
      → has_prefix (replace_from old new k s) t ≡ true
      → has_prefix (drop k s) t ≡ true
  unfolding drop replace_from
  prefix-replace_from zero [] t l h = h
  prefix-replace_from (suc k) [] t l h = h
  prefix-replace_from (suc k) (c ∷ s) t l h = prefix-replace_from k s t l h
  prefix-replace_from zero (c ∷ s) [] l h = has_prefix-nil (c ∷ s)
  prefix-replace_from zero (c ∷ s) (p ∷ t) l h = elim (replace_cases old new filled c s) [
    | inl (split, out) ↦ rw split (
        prefix-replaced (replace_from old new (length old - 1) s) _ (p ∷ t) l
          (subst (λ y. has_prefix y (p ∷ t) ≡ true) out h))
    | inr (differs, out) ↦
        let h' : has_prefix (c ∷ replace_from old new 0 s) (p ∷ t) ≡ true =
          subst (λ y. has_prefix y (p ∷ t) ≡ true) out h in
        ground (
          arith,
          has_prefix-cons c p (replace_from old new 0 s) t,
          has_prefix-cons c p s t,
          prefix-replace_from zero s t l.1,
        )
  ]

-- `r'` has every prefix and every occurrence that `r` has.
module _ (r r' : Text)
    (prefixes : (u : Text) → Lacks b'<' u → has_prefix r u ≡ true → has_prefix r' u ≡ true) where
  prefix-behind :
      (b u : Text) → Lacks b'<' u → has_prefix (b ++ r) u ≡ true → has_prefix (b ++ r') u ≡ true
  prefix-behind [] u l h = prefixes u l h
  prefix-behind (c ∷ b) [] l h = has_prefix-nil (c ∷ (b ++ r'))
  prefix-behind (c ∷ b) (p ∷ u) l h = ground (
    arith,
    has_prefix-cons c p (b ++ r) u,
    has_prefix-cons c p (b ++ r') u,
    prefix-behind b u l.1,
  )

  contains-behind :
      (b t : Text)
      → Lacks b'<' t
      → (contains r t ≡ true → contains r' t ≡ true)
      → contains (b ++ r) t ≡ true
      → contains (b ++ r') t ≡ true
  contains-behind [] t l k h = k h
  contains-behind (c ∷ b) t l k h = ground (
    arith,
    contains-cons c (b ++ r) t,
    contains-cons c (b ++ r') t,
    prefix-behind (c ∷ b) t l,
    contains-behind b t l k,
  )

  contains-replaced :
      (a x m b t : Text) (filled : is_empty (a ++ (x ++ b)) ≡ false)
      → NoAngle t
      → is_empty t ≡ false
      → contains m t ≡ false
      → (contains r t ≡ true → contains r' t ≡ true)
      → contains (new a x m b filled ++ r) t ≡ true
      → contains (old a x m b filled ++ r') t ≡ true
  contains-replaced a x m b t filled l e apart k h =
      elim (contains_apart b'<' a _ t l.0 e
        (subst (λ y. contains y t ≡ true) (new-append a x m b filled r) h)) [
          | inl q ↦ contains-append _ r' t e (contains-append a (x ++ b) t e q)
          | inr q ↦ elim (contains_apart b'>' m (b ++ r) t l.1 e q) [
            | inl q' ↦ absurd (ground arith)
            | inr q' ↦
                rw (append_assoc a (x ++ b) r', append_assoc x b r')
                  (contains-append_right a _ t
                    (contains-append_right x _ t (contains-behind b t l.0 k q')))
          ]
        ]

-- Replacing makes no occurrence of a text that has no angle brackets and does not occur between those of
-- the replacement.
contains-replace_from :
    (a x m b t : Text) (filled : is_empty (a ++ (x ++ b)) ≡ false)
    → NoAngle t
    → is_empty t ≡ false
    → contains m t ≡ false
    → (k : ℕ) (s : Text)
    → contains (replace_from (old a x m b filled) (new a x m b filled) k s) t ≡ true
    → contains (drop k s) t ≡ true
unfolding drop replace_from
contains-replace_from a x m b t filled l e apart zero [] h = h
contains-replace_from a x m b t filled l e apart (suc k) [] h = h
contains-replace_from a x m b t filled l e apart (suc k) (c ∷ s) h =
    contains-replace_from a x m b t filled l e apart k s h
contains-replace_from a x m b t filled l e apart zero (c ∷ s) h =
    let f = replace_from (old a x m b filled) (new a x m b filled) in
    elim (replace_cases (old a x m b filled) (new a x m b filled) filled c s) [
      | inl (split, out) ↦
          let n = length (old a x m b filled) - 1 in
          rw split (
            contains-replaced (f n s) (drop n s)
              (λ u l' q. prefix-replace_from a x m b filled n s u l' q) a x m b t filled l e apart
              (contains-replace_from a x m b t filled l e apart n s)
              (subst (λ y. contains y t ≡ true) out h))
      | inr (differs, out) ↦
          let h' : contains (c ∷ f 0 s) t ≡ true = subst (λ y. contains y t ≡ true) out h in
          contains-behind (f 0 s) s (λ u l' q. prefix-replace_from a x m b filled 0 s u l' q)
            (c ∷ []) t l.0 (contains-replace_from a x m b t filled l e apart 0 s) h'
    ]

pub contains-replace_all :
    (a x m b s t : Text)
    → is_empty (a ++ (x ++ b)) ≡ false
    → NoAngle t
    → is_empty t ≡ false
    → contains m t ≡ false
    → contains s t ≡ false
    → contains (replace_all (a ++ (x ++ b)) (a ++ b'<' ∷ (m ++ b'>' ∷ b)) s) t ≡ false
unfolding replace_all drop
contains-replace_all a x m b s t filled l e apart none_there =
    elim (Bool-cases
      (contains (replace_from (a ++ (x ++ b)) (a ++ b'<' ∷ (m ++ b'>' ∷ b)) 0 s) t)) [
        | inl q ↦ absurd (ground (arith, contains-replace_from a x m b t filled l e apart 0 s q))
        | inr q ↦ q
      ]
