-- ===== src/Telegram/Commands/Words.antt =====
-- The words of a command: `commandRemainder`, `splitFirstWord` and `providerNameRegex` of
-- internal/telegram/handlers.go.
use hyprbot.Prelude.{
  ◌⊎◌, ℕ, ◌≤◌, ◌≡◌, refl, ◌∙◌, sym, ap, true, false, none, some, [], ◌∷◌, ◌++◌, Text, arith, inl,
  inr, append-nil, ◌≢◌,
}
use hyprbot.Strings.{trim_left, is_space, trim_space, cut, trim_right}
use hyprbot.Strings.Trim.{
  NoSpace, IsWord, trim_space-word, cut-append, cut-word_end, NoSpace-ne_blank, trim_space-nil,
  trim_right-cons, trim_space-trim_right,
}
use hyprbot.Telegram.Commands.{
  command_remainder, second_part, split_first_word, first_word, is_provider_name, is_name_char,
  all_name_chars,
}

-- `s` behind a word, as the command parser sees it: the cut comes at the blank, or there is none.
cut_trimmed :
    (w r : Text)
    → IsWord w
    → ((trim_space (w ++ 32 ∷ r) ≡ w) × (cut 32 w ≡ none) × (trim_space r ≡ []))
      ⊎ ((trim_space (w ++ 32 ∷ r) ≡ w ++ 32 ∷ trim_right r)
          × (cut 32 (w ++ 32 ∷ trim_right r) ≡ some (w, trim_right r)))
cut_trimmed w r h = elim (trim_right-cons 32 r) [
  | inl (e, f) ↦ inl (
    trim_space-word w (32 ∷ r) h ∙ ap (λ t. w ++ t) e ∙ append-nil w,
    cut-word_end 32 w (NoSpace-ne_blank w h.no_space),
    sym (trim_space-trim_right r)
        ∙ ap trim_space f
        ∙ unfold trim_space trim_left trim_right in refl,
  )
  | inr e ↦ inr (
    trim_space-word w (32 ∷ r) h ∙ ap (λ t. w ++ t) e,
    cut-append 32 w (trim_right r) (NoSpace-ne_blank w h.no_space),
  )
]

first_word-none : (w : Text) → w ≢ [] → cut 32 w ≡ none → first_word w ≡ (w, [])
unfolding first_word
first_word-none [] n e = absurd (n refl)
first_word-none (c ∷ w) n e = rw (e, first_word)

first_word-some :
    (w a b : Text) → w ≢ [] → cut 32 w ≡ some (a, b) → first_word w ≡ (a, trim_space b)
unfolding first_word
first_word-some [] a b n e = absurd (n refl)
first_word-some (c ∷ w) a b n e = rw (e, first_word)

append-ne-nil : (w r : Text) → w ≢ [] → w ++ r ≢ []
append-ne-nil [] r n = absurd (n refl)
append-ne-nil (c ∷ w) r n = λ e. cc

-- A word, a blank and any rest are split into the word and the trimmed rest.
pub split_first_word-append :
    (w r : Text) → IsWord w → split_first_word (w ++ 32 ∷ r) ≡ (w, trim_space r)
unfolding split_first_word
split_first_word-append w r h = elim (cut_trimmed w r h) [
  | inl (e, f, g) ↦ rw (e, g) (first_word-none w h.inhabited f)
  | inr (e, f) ↦
      rw e (first_word-some _ w (trim_right r) (append-ne-nil w _ h.inhabited) f)
      ∙ ap (λ t. (w, t)) (trim_space-trim_right r)
]

-- After a command word and a blank, the remainder trims to what the user wrote.
pub command_remainder-append :
    (w r : Text) → IsWord w → trim_space (command_remainder (w ++ 32 ∷ r)) ≡ trim_space r
unfolding command_remainder
command_remainder-append w r h = elim (cut_trimmed w r h) [
  | inl (e, f, g) ↦
      ap (λ t. trim_space (second_part (cut 32 t))) e
      ∙ ap (λ o. trim_space (second_part o)) f
      ∙ trim_space-nil
      ∙ sym g
  | inr (e, f) ↦
      ap (λ t. trim_space (second_part (cut 32 t))) e
      ∙ ap (λ o. trim_space (second_part o)) f
      ∙ trim_space-trim_right r
]

name_char_range : (c : ℕ) → is_name_char c ≡ true → (45 ≤ c) × (c ≤ 122)
unfolding is_name_char
name_char_range c h = ground arith

not_space : (c : ℕ) → 45 ≤ c → c ≤ 122 → is_space c ≡ false
unfolding is_space
not_space c h k = ground arith

-- The name characters hold no space.
all_name_chars-NoSpace : (s : Text) → all_name_chars s ≡ true → NoSpace s
unfolding all_name_chars
all_name_chars-NoSpace [] h = tt
all_name_chars-NoSpace (c ∷ s) h =
    let (lo, hi) = name_char_range c (ground arith) in
    (not_space c lo hi, all_name_chars-NoSpace s (ground arith))

-- A provider name that the wizard accepts is a word, without blanks and not empty, so every
-- command can name it.
pub is_provider_name-IsWord : (s : Text) → is_provider_name s ≡ true → IsWord s
unfolding is_provider_name
is_provider_name-IsWord [] h = absurd (ground arith)
is_provider_name-IsWord (c ∷ s) h = record {
  inhabited = λ e. cc;
  no_space = all_name_chars-NoSpace (c ∷ s) (ground arith);
}
