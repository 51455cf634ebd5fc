-- ===== src/Telegram/Commands/DeepLink.antt =====
-- The payload of the deep link of `llmAdd` and `start` in internal/telegram/handlers.go.
use hyprbot.Prelude.{◌≡◌, none, ◌∙◌, ap, some, text, ℤ, IsInt64}
use hyprbot.Strings.Prefix.{strip_prefix-append}
use hyprbot.Strings.Decimal.{format_int, parse_int-format_int, parse_int}
use hyprbot.Telegram.Commands.{deep_link_param, start_arg, plain, invalid, wizard}

-- The payload that /llm_add prints for a chat makes /start begin the wizard for that chat,
-- whatever its int64 identifier, negative ones included.
pub start_arg-deep_link_param :
    (chat_id : ℤ) → IsInt64 chat_id → start_arg (deep_link_param chat_id) ≡ wizard chat_id
unfolding start_arg deep_link_param
start_arg-deep_link_param chat_id h =
    ap
      (λ o. elim o [
        | none ↦ plain
        | some rest ↦ elim (parse_int rest) [ none ↦ invalid | some c ↦ wizard c ]
      ])
      (strip_prefix-append (text "llmadd_") (format_int chat_id))
    ∙ rw (parse_int-format_int chat_id h)
