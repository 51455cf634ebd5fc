-- ===== src/Strings/Redaction/Itself.antt =====
-- `strings.ReplaceAll` of a text by another one between angle brackets leaves no occurrence of the text.
use hyprbot.Strings.{has_prefix, contains, replace_from, replace_all}
use hyprbot.Strings.Occurrences.{has_prefix-nil, has_prefix-cons, contains-cons, contains_apart}
use hyprbot.Strings.Redaction.{
  NoAngle, replace_cases, prefix-replace_from, new-append, drop, old, new,
}
use hyprbot.Prelude.{
  zero, Bool-cases, ◌-◌, length, inr, subst, inl, true, append-nil, arith, suc, ◌≢◌, ◌∷◌, ℕ, false,
  ◌≡◌, [], is_empty, ◌++◌, Text,
}

module _ (t m : Text) (whole : t ++ [] ≡ t) (e : is_empty ([] ++ (t ++ [])) ≡ false) (l : NoAngle t)
    (filled : is_empty t ≡ false) (apart : contains m t ≡ false) where
  abbrev f : ℕ → Text → Text
  f = replace_from (old [] t m [] e) (new [] t m [] e)

  not_replaced : (r : Text) → contains r t ≡ false → contains (new [] t m [] e ++ r) t ≢ true
  not_replaced r none_there h =
      elim (contains_apart b'<' [] _ t l.0 filled
        (subst (λ y. contains y t ≡ true) (new-append [] t m [] e r) h)) [
          | inl q ↦ absurd (unfold contains in (ground arith))
          | inr q ↦ elim (contains_apart b'>' m r t l.1 filled q) [
            | inl q' ↦ absurd (ground arith)
            | inr q' ↦ absurd (ground arith)
          ]
        ]

  -- Copying a code point where the text does not begin makes no occurrence there.
  not_kept :
      (c : ℕ) (s u : Text)
      → NoAngle u
      → has_prefix (c ∷ s) u ≡ false
      → has_prefix (c ∷ f 0 s) u ≡ false
  unfolding drop
  not_kept c s [] k h = absurd (ground (arith, has_prefix-nil (c ∷ s)))
  not_kept c s (p ∷ u) k h = ground (
    arith,
    has_prefix-cons c p s u,
    has_prefix-cons c p (f 0 s) u,
    prefix-replace_from [] t m [] e 0 s u k.0.1,
  )

  contains-itself : (k : ℕ) (s : Text) → contains (f k s) t ≡ false
  unfolding replace_from contains
  contains-itself zero [] = filled
  contains-itself (suc k) [] = filled
  contains-itself (suc k) (c ∷ s) = contains-itself k s
  contains-itself zero (c ∷ s) = elim (replace_cases (old [] t m [] e) (new [] t m [] e) e c s) [
    | inl (split, out) ↦
        let n = length (old [] t m [] e) - 1 in
        let h = not_replaced (f n s) (contains-itself n s) in
        rw out (elim (Bool-cases (contains (new [] t m [] e ++ f n s) t)) [
          | inl q ↦ absurd (h q)
          | inr q ↦ q
        ])
    | inr (differs, out) ↦
        let d : has_prefix (c ∷ s) t ≡ false =
          subst (λ y. has_prefix (c ∷ s) y ≡ false) whole differs in
        rw (out, contains-cons c (f 0 s) t, not_kept c s t l d) (contains-itself 0 s)
  ]

pub contains-replace_itself :
    (t m s : Text)
    → NoAngle t
    → is_empty t ≡ false
    → contains m t ≡ false
    → contains (replace_all t (b'<' ∷ (m ++ b'>' ∷ [])) s) t ≡ false
unfolding replace_all
contains-replace_itself t m s l filled apart =
    let e : is_empty (t ++ []) ≡ false = rw (append-nil t) filled in
    subst (λ y. contains (replace_from y (b'<' ∷ (m ++ b'>' ∷ [])) 0 s) t ≡ false) (append-nil t)
      (contains-itself t m (append-nil t) e l filled apart 0 s)
