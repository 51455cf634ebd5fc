-- ===== src/Telegram/Wizard.antt =====
-- The dialogue that adds a provider, `privateText` of internal/telegram/handlers.go: what it makes of
-- each text, and what `finishWizard` stores.
pub mod Dialogue
pub mod Secrets
pub mod Steps
pub mod Stored
pub mod Finished
pub mod Saves
pub mod Tenants
use hyprbot.Telegram.Service.{Service, WizardState, reply, is_admin, audit}
use hyprbot.Telegram.Context.{Context, ChatInfo, Incoming, is_private}
use hyprbot.Telegram.Commands.{normalize_provider_kind, is_provider_name}
use hyprbot.Crypto.Manager.{marshal_encrypted_string}
use hyprbot.Storage.Store
use hyprbot.Storage.Tables.{ProviderInstance}
use hyprbot.Strings.{trim_space, is_blank, has_prefix, to_lower}
use hyprbot.Strings.Decimal.{format_int}
use hyprbot.Redis.{Redis}
use hyprbot.System.{Exec, pure, raise, lift, call, attempt, ◌>>=◌, ◌>>◌}
use hyprbot.Prelude.{
  true, false, failed, ok, err, [], text_has_eq, ◌||◌, Result, not, none, ℕ, ◌++◌, is_empty, ◌∷◌,
  ◌==◌, if◌then◌else◌, List, some, Bool, text, Text, Option, ℤ,
}

-- The steps that `privateText` knows.
pub data Stage : Type 0 where
  kind name base_url endpoint headers api_key : Stage

unfoldable pub stage_of : Text → Option Stage
stage_of t =
    if t == text "kind"
    then some kind
    else if t == text "name"
    then some name
    else if t == text "base_url"
    then some base_url
    else if t == text "endpoint"
    then some endpoint
    else if t == text "headers"
    then some headers
    else if t == text "api_key"
    then some api_key
    else none

unfoldable pub is_openai : Text → Bool
is_openai k = k == text "openai_compat"

-- `mode != "chat_completions" && mode != "responses"` is false
unfoldable pub is_mode : Text → Bool
is_mode m = m == text "chat_completions" || m == text "responses"

-- What `privateText` does with a text: nothing, a reply, a new state and a reply, or the end.
pub data Move : Type 0 where
  ignore : Move
  say : Text → Move
  advance : WizardState → Text → Move
  finish : Text → Move

module _ (v : Service) where
  abbrev ask_key : Text
  ask_key = text "Send API key (or '-' for empty)."

  unfoldable pub kind_move : WizardState → Text → Move
  kind_move st t =
      let k = normalize_provider_kind t in
      if is_empty k
      then say (text "Send provider type: openai-compat or custom-http")
      else advance (record st { kind = k; step = text "name" })
          (text "Send provider name (letters, digits, _ or -, max 64).")

  unfoldable pub name_move : WizardState → Text → Move
  name_move st t =
      if is_provider_name t
      then advance (record st { name = t; step = text "base_url" })
          (if is_openai st.kind
            then text "Send base URL (example: https://api.x.ai/v1)"
            else text "Send custom endpoint URL")
      else say (text "Invalid provider name. Use letters, digits, _ or -.")

  unfoldable pub base_url_move : WizardState → Text → Move
  base_url_move st t =
      if is_openai st.kind
      then advance (record st { base_url = t; step = text "endpoint" })
          (text "Send endpoint mode: chat_completions or responses")
      else advance (record st { base_url = t; step = text "headers" })
          (text
            "Send headers JSON template (example: {\"Authorization\":\"Bearer {{api_key}}\"}) or '-'")

  unfoldable pub endpoint_move : WizardState → Text → Move
  endpoint_move st t =
      let mode = to_lower (trim_space t) in
      if is_mode mode
      then advance (record st { endpoint = mode; step = text "api_key" }) ask_key
      else say (text "Supported endpoint modes: chat_completions or responses")

  unfoldable pub headers_move : WizardState → Text → Move
  headers_move st t =
      if t == text "-"
      then advance (record st { headers_json = []; step = text "api_key" }) ask_key
      else if v.is_headers_json t
      then advance (record st { headers_json = t; step = text "api_key" }) ask_key
      else say (text "Invalid JSON. Example: {\"Authorization\":\"Bearer {{api_key}}\"}")

  abbrev pub move_at : Option Stage → WizardState → Text → Move
  move_at none st t = ignore
  move_at (some kind) st t = kind_move st t
  move_at (some name) st t = name_move st t
  move_at (some base_url) st t = base_url_move st t
  move_at (some endpoint) st t = endpoint_move st t
  move_at (some headers) st t = headers_move st t
  move_at (some api_key) st t = finish (if t == text "-" then [] else t)

  -- The switch of `privateText`.
  unfoldable pub move : WizardState → Text → Move
  move st t = move_at (stage_of st.step) st t

  -- A secret that is blank is not stored.
  unfoldable pub optional_secret : Option (List ℕ) → Text → Result (Option Text)
  optional_secret random value =
      if is_blank value
      then ok none
      else elim (marshal_encrypted_string v.aead v.envelope_json v.crypto random value) [
        | ok raw ↦ ok (some raw)
        | err e ↦ err e
      ]

  abbrev pub provider_of : WizardState → Option Text → Option Text → ProviderInstance
  provider_of st key hs = record {
    id = 0;
    chat_id = st.target_chat_id;
    name = st.name;
    kind = st.kind;
    base_url = st.base_url;
    enc_api_key = key;
    enc_headers_json = hs;
    config_json =
        v.marshal_config (if is_openai st.kind then (text "endpoint", st.endpoint) ∷ [] else []);
    created_at = 0;
  }
