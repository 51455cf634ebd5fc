-- ===== src/Telegram/Commands.antt =====
-- internal/telegram/handlers.go: how command texts, deep links and provider words are read.
pub mod Words
pub mod DeepLink
pub mod Kinds
use hyprbot.Prelude.{
  ℕ, ◌+◌, ◌≡◌, refl, Bool, true, false, ◌&&◌, ◌||◌, Option, none, some, [], ◌∷◌, ◌++◌, Text, text,
  ◌==◌, text_has_eq, text_eq, leb, eqb, if◌then◌else◌, is_empty, length, ℤ, pos, negsuc,
}
use hyprbot.Strings.{trim_space, cut, strip_prefix, to_lower}
use hyprbot.Strings.Decimal.{format_int, parse_int}

-- `parts[1]` of a `SplitN`, if there is one.
second_part : Option (Text × Text) → Text
second_part none = []
second_part (some (_, rest)) = rest

-- `commandRemainder`
unfoldable pub command_remainder : Text → Text
unfolding second_part
command_remainder s = second_part (cut 32 (trim_space s))

-- What `splitFirstWord` returns for a trimmed text.
first_word : Text → Text × Text
first_word [] = ([], [])
first_word (c ∷ s) = elim (cut 32 (c ∷ s)) [
  | none ↦ (c ∷ s, [])
  | some (first, rest) ↦ (first, trim_space rest)
]

-- `splitFirstWord`
unfoldable pub split_first_word : Text → Text × Text
unfolding first_word
split_first_word s = first_word (trim_space s)

-- `normalizeProviderKind`, with the empty text for an unknown kind.
unfoldable pub normalize_provider_kind : Text → Text
normalize_provider_kind v =
    let w = to_lower (trim_space v) in
    if w == text "openai"
      || w == text "openai_compat"
      || w == text "openai-compatible"
      || w == text "openai-compat"
    then text "openai_compat"
    else if w == text "custom_http" || w == text "custom-http" || w == text "custom"
    then text "custom_http"
    else []

is_name_char : ℕ → Bool
is_name_char c =
    leb b'a' c && leb c b'z'
    || leb b'A' c && leb c b'Z'
    || leb b'0' c && leb c b'9'
    || eqb c b'_'
    || eqb c b'-'

all_name_chars : Text → Bool
all_name_chars [] = true
all_name_chars (c ∷ s) = is_name_char c && all_name_chars s

-- `providerNameRegex.MatchString`
unfoldable pub is_provider_name : Text → Bool
unfolding is_name_char all_name_chars
is_provider_name s = leb 1 (length s) && leb (length s) 64 && all_name_chars s

-- The argument that `llmAdd` gives to `deepLink`.
unfoldable pub deep_link_param : ℤ → Text
deep_link_param chat_id = text "llmadd_" ++ format_int chat_id

-- What `start` makes of the argument of `/start` in a private chat: no deep link, a bad payload,
-- or the chat of the wizard.
pub data StartArg : Type 0 where
  plain : StartArg
  invalid : StartArg
  wizard : ℤ → StartArg

unfoldable pub start_arg : Text → StartArg
start_arg arg = elim (strip_prefix (text "llmadd_") arg) [
  | none ↦ plain
  | some rest ↦ elim (parse_int rest) [ none ↦ invalid | some chat_id ↦ wizard chat_id ]
]

remainder_test : command_remainder (text " /ask  what is it ") ≡ text " what is it"
unfolding command_remainder trim_space cut text
remainder_test = refl

split_test : split_first_word (text " fast  hello there") ≡ (text "fast", text "hello there")
unfolding split_first_word trim_space cut text
split_test = refl

kind_test : normalize_provider_kind (text " OpenAI ") ≡ text "openai_compat"
unfolding normalize_provider_kind trim_space to_lower text text_eq
kind_test = refl
