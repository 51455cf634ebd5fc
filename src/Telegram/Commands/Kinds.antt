-- ===== src/Telegram/Commands/Kinds.antt =====
-- `normalizeProviderKind` of internal/telegram/handlers.go.
use hyprbot.Prelude.{◌≡◌, ◌⊎◌, [], Text, text, text_has_eq, arith}
use hyprbot.Telegram.Commands.{normalize_provider_kind}

-- A normalised kind is empty, or one of the two kinds that providers are built from.
pub normalize_provider_kind-cases :
    (v : Text)
    → (normalize_provider_kind v ≡ [])
      ⊎ ((normalize_provider_kind v ≡ text "openai_compat")
          ⊎ (normalize_provider_kind v ≡ text "custom_http"))
unfolding normalize_provider_kind
normalize_provider_kind-cases v = ground arith
