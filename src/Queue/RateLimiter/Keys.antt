-- ===== src/Queue/RateLimiter/Keys.antt =====
-- The keys of the counters of internal/queue/ratelimit.go.
use hyprbot.Prelude.{ℕ, ◌/◌, ◌≡◌, Text, text, ℤ}
use hyprbot.Strings.Decimal.{format_int, format_int_injective, format_int-ne_colon}
use hyprbot.Strings.Prefix.{append_cancel, field_injective}
use hyprbot.Queue.RateLimiter.{key, hour}

module _ (hour_label : ℕ → Text) where
  -- Two calls of the rate limiter share a counter only if they are for the same chat, the same
  -- user and hours with the same label.
  pub key_injective :
      (chat_id chat_id' user_id user_id' : ℤ) (now now' : ℕ)
      → key hour_label chat_id user_id now ≡ key hour_label chat_id' user_id' now'
      → (chat_id ≡ chat_id')
        × (user_id ≡ user_id')
        × (hour_label (now / hour) ≡ hour_label (now' / hour))
  unfolding key
  key_injective chat_id chat_id' user_id user_id' now now' e =
      let (c, rest) =
        field_injective (format_int chat_id) (format_int chat_id') _ _ (format_int-ne_colon chat_id)
          (format_int-ne_colon chat_id') (append_cancel (text "hyprbot:ratelimit:") _ _ e) in
      let (u, label) =
        field_injective (format_int user_id) (format_int user_id') _ _ (format_int-ne_colon user_id)
          (format_int-ne_colon user_id') rest in
      (format_int_injective chat_id chat_id' c, format_int_injective user_id user_id' u, label)
