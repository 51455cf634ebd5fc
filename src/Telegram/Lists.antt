-- ===== src/Telegram/Lists.antt =====
-- `aiList`, `llmList` and `llmAdd` of internal/telegram/handlers.go.
use hyprbot.Telegram.Service.{
  Service, reply, send_message, require_admin, ensure_chat_of, deep_link,
}
use hyprbot.Telegram.Context.{Context, ChatInfo, Incoming, is_private}
use hyprbot.Telegram.Commands.{deep_link_param}
use hyprbot.Storage.Store
use hyprbot.Storage.Tables.{Preset, ProviderInstance}
use hyprbot.Strings.{join_lines}
use hyprbot.Redis.{Redis}
use hyprbot.System.{Exec, pure, attempt, ◌>>=◌, ◌>>◌}
use hyprbot.Prelude.{
  text_has_eq, ◌==◌, [], is_empty, none, ◌++◌, err, ok, if◌then◌else◌, text, ◌∷◌, some, Option,
  Result, ℤ, Text, List,
}

-- The error of `GetDefaultPresetName` is dropped, and leaves the empty name.
abbrev pub name_or_empty : Result Text → Text
name_or_empty (ok t) = t
name_or_empty (err e) = []

unfoldable pub preset_line : Text → Preset → Text
preset_line default p =
    let line = text "- " ++ (p.name ++ (text " (" ++ (p.model ++ text ")"))) in
    if p.name == default then line ++ text " [default]" else line

unfoldable pub preset_lines : Text → List Preset → List Text
preset_lines default [] = []
preset_lines default (p ∷ ps) = preset_line default p ∷ preset_lines default ps

module _ {R : Redis} (ctx : Context) where
  abbrev pub presets_listed : ℤ → Result (List Preset) → Exec R (Unit {0})
  presets_listed chat_id (err e) = reply ctx (text "Failed to load presets.")
  presets_listed chat_id (ok []) = reply ctx (text "No presets configured.")
  presets_listed chat_id (ok (p ∷ ps)) = attempt (Store.get_default_preset_name chat_id) >>= λ r.
      reply ctx (join_lines (text "Presets:" ∷ preset_lines (name_or_empty r) (p ∷ ps)))

  abbrev pub ai_list_in : Option ChatInfo → Exec R (Unit {0})
  ai_list_in none = pure tt
  ai_list_in (some chat) = attempt (Store.list_presets chat.id) >>= presets_listed chat.id

  -- `aiList`
  unfoldable pub ai_list : Exec R (Unit {0})
  ai_list = ai_list_in ctx.effective_chat

  module _ (v : Service) where
    abbrev pub ensure_of : Option Incoming → Exec R (Unit {0})
    ensure_of none = pure tt
    ensure_of (some msg) = ensure_chat_of msg

    abbrev pub linked : ChatInfo → Text → Exec R (Unit {0})
    linked chat link =
        if is_empty link
        then reply ctx (text "Unable to generate deep-link. Check bot username.")
        else send_message chat.id (text "Continue in private chat using the button below.") (
            (record { label = text "Open private chat"; url = link; callback_data = [] } ∷ []) ∷ [])

    abbrev pub llm_add_as : ChatInfo → Option (ℤ × ℤ) → Exec R (Unit {0})
    llm_add_as chat none = pure tt
    llm_add_as chat (some (chat_id, user)) =
        ensure_of ctx.effective_message >> linked chat (deep_link v (deep_link_param chat_id))

    abbrev pub llm_add_in : Option ChatInfo → Option ℤ → Exec R (Unit {0})
    llm_add_in none u = pure tt
    llm_add_in (some chat) none = pure tt
    llm_add_in (some chat) (some user) =
        if is_private chat
        then reply ctx (text "Run /llm_add in your group/supergroup first.")
        else require_admin v ctx >>= llm_add_as chat

    -- `llmAdd`
    unfoldable pub llm_add : Exec R (Unit {0})
    llm_add = llm_add_in ctx.effective_chat ctx.effective_user

unfoldable pub provider_line : ProviderInstance → Text
provider_line p = text "- " ++ (p.name ++ (text " [" ++ (p.kind ++ (text "] " ++ p.base_url))))

unfoldable pub provider_lines : List ProviderInstance → List Text
provider_lines [] = []
provider_lines (p ∷ ps) = provider_line p ∷ provider_lines ps

module _ {R : Redis} (ctx : Context) where
  abbrev pub providers_listed : Result (List ProviderInstance) → Exec R (Unit {0})
  providers_listed (err e) = reply ctx (text "Failed to list providers.")
  providers_listed (ok []) = reply ctx (text "No providers configured.")
  providers_listed (ok (p ∷ ps)) =
      reply ctx (join_lines (text "Providers:" ∷ provider_lines (p ∷ ps)))

  abbrev pub llm_list_as : Option (ℤ × ℤ) → Exec R (Unit {0})
  llm_list_as none = pure tt
  llm_list_as (some (chat_id, user)) = attempt (Store.list_providers chat_id) >>= providers_listed

  -- `llmList`
  unfoldable pub llm_list : Service → Exec R (Unit {0})
  llm_list v = require_admin v ctx >>= llm_list_as
