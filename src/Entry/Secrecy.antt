-- ===== src/Entry/Secrecy.antt =====
-- `sanitizeTelegramErr` of cmd/bot/main.go: the bot's token in what it returns.
use hyprbot.Entry.{sanitize_telegram_err, redact_parts, redact_id}
use hyprbot.Strings.{contains, cut, is_blank, replace_all, has_prefix, strip_prefix}
use hyprbot.Strings.Occurrences.{Lacks}
use hyprbot.Strings.Redaction.{NoAngle, contains-replace_all}
use hyprbot.Strings.Redaction.Itself.{contains-replace_itself}
use hyprbot.Prelude.{
  inr, inl, eqb, Bool-cases, none, Option, is_empty, refl, eqb_iff, [], arith, false, ◌∷◌, some,
  ◌++◌, ◌≡◌, Text, text, ℕ,
}

-- A text with a code point that another one lacks does not occur in that one.
prefix-Lacks : (x : ℕ) (s t u : Text) → Lacks x s → has_prefix s (t ++ x ∷ u) ≡ false
unfolding has_prefix strip_prefix
prefix-Lacks x [] [] u l = refl
prefix-Lacks x [] (p ∷ t) u l = refl
prefix-Lacks x (c ∷ s) [] u l = ground (arith, eqb_iff c x, eqb_iff x c)
prefix-Lacks x (c ∷ s) (p ∷ t) u l = ground (arith, prefix-Lacks x s t u l.1)

contains-Lacks : (x : ℕ) (s t u : Text) → Lacks x s → contains s (t ++ x ∷ u) ≡ false
unfolding contains
contains-Lacks x [] [] u l = refl
contains-Lacks x [] (p ∷ t) u l = refl
contains-Lacks x (c ∷ s) t u l = rw (prefix-Lacks x (c ∷ s) t u l) (contains-Lacks x s t u l.1)

-- What a token is cut into.
cut_parts : (x : ℕ) (t id rest : Text) → cut x t ≡ some (id, rest) → t ≡ id ++ x ∷ rest
unfolding cut
cut_parts x [] id rest h = absurd (ground arith)
cut_parts x (c ∷ t) id rest h = elim (Bool-cases (eqb c x)) [
  | inl q ↦ ground (arith, eqb_iff c x)
  | inr q ↦ by_rest (cut x t) (λ a b. cut_parts x t a b) (ground arith)
]
  where
    by_rest :
        (o : Option (Text × Text))
        → ((a b : Text) → o ≡ some (a, b) → t ≡ a ++ x ∷ b)
        → ◌≡◌ {A = Option (Text × Text)}
            (elim o [ none ↦ none | some (a, b) ↦ some (c ∷ a, b) ])
            (some (id, rest))
        → c ∷ t ≡ id ++ x ∷ rest
    by_rest none ih k = absurd (ground arith)
    by_rest (some (a, b)) ih k = ground (arith, ih a b refl)

redacted-Lacks : Lacks b':' (text "redacted-token") × Lacks b':' (text "redacted")
unfolding text
redacted-Lacks = (ground arith, ground arith)

replacements :
    (text "<redacted-token>" ≡ b'<' ∷ (text "redacted-token" ++ b'>' ∷ []))
    × (text "/bot<redacted>:" ≡ text "/bot" ++ b'<' ∷ (text "redacted" ++ b'>' ∷ text ":"))
    × (text "bot<redacted>/" ≡ text "bot" ++ b'<' ∷ (text "redacted" ++ b'>' ∷ text "/"))
unfolding text
replacements = (refl, refl, refl)

module _ (token id rest : Text) (whole : token ≡ id ++ b':' ∷ rest) (plain : NoAngle token) where
  token_filled : is_empty token ≡ false
  token_filled = rw whole (by_id id)
    where
      by_id : (i : Text) → is_empty (i ++ b':' ∷ rest) ≡ false
      by_id [] = refl
      by_id (c ∷ i) = refl

  not_redacted : contains (text "redacted") token ≡ false
  not_redacted = rw whole (contains-Lacks b':' (text "redacted") id rest redacted-Lacks.1)

  bot_filled :
      (is_empty (text "/bot" ++ (id ++ text ":")) ≡ false)
      × (is_empty (text "bot" ++ (id ++ text "/")) ≡ false)
  unfolding text
  bot_filled = (refl, refl)

  redact_id-hides :
      (msg : Text) → contains msg token ≡ false → contains (redact_id id msg) token ≡ false
  unfolding redact_id
  redact_id-hides msg h =
      rw (replacements.1, replacements.2)
        (contains-replace_all (text "bot") id (text "redacted") (text "/") _ token bot_filled.1
          plain token_filled not_redacted
          (contains-replace_all (text "/bot") id (text "redacted") (text ":") msg token bot_filled.0
            plain token_filled not_redacted h))

  first_hides :
      (msg : Text) → contains (replace_all token (text "<redacted-token>") msg) token ≡ false
  first_hides msg = rw replacements.0 (
      contains-replace_itself token (text "redacted-token") msg plain token_filled
        (rw whole (contains-Lacks b':' (text "redacted-token") id rest redacted-Lacks.0)))

-- What sanitizeTelegramErr returns for an error does not hold the bot's token, if the token is
-- not blank, and has a colon and no angle brackets, whatever the text of the error is.
pub sanitize_telegram_err-hides :
    (msg token id rest : Text)
    → cut b':' token ≡ some (id, rest)
    → NoAngle token
    → is_blank token ≡ false
    → contains (sanitize_telegram_err (some msg) token) token ≡ false
unfolding sanitize_telegram_err
sanitize_telegram_err-hides msg token id rest parts plain filled =
    let whole = cut_parts b':' token id rest parts in rw (filled, parts) (by_id id whole)
  where
    by_id :
        (i : Text)
        → token ≡ i ++ b':' ∷ rest
        → contains
            (redact_parts (replace_all token (text "<redacted-token>") msg) (some (i, rest)))
            token
          ≡ false
    by_id [] whole = first_hides token [] rest whole plain msg
    by_id (c ∷ i) whole =
        redact_id-hides token (c ∷ i) rest whole plain _
          (first_hides token (c ∷ i) rest whole plain msg)
