-- ===== src/Telegram/Admin.antt =====
-- The administrators' commands of internal/telegram/handlers.go: presets and providers.
pub mod Rights
pub mod Tenants
use hyprbot.Prelude.{
  text_has_eq, not_found, ◌∷◌, ◌==◌, failed, ◌||◌, ok, err, none, is_empty, some, Result,
  if◌then◌else◌, ℕ, [], ℤ, text, Text, Option,
}
use hyprbot.System.{attempt, pure, ◌>>=◌, ◌>>◌, Exec}
use hyprbot.Telegram.Service.{Service, reply, require_admin, audit}
use hyprbot.Telegram.Context.{Context, Incoming}
use hyprbot.Telegram.Commands.{command_remainder, split_first_word}
use hyprbot.Storage.Store
use hyprbot.Storage.Tables.{PresetWithProvider, Preset, ProviderInstance}
use hyprbot.Redis.{Redis}
use hyprbot.Strings.{trim_space}

abbrev pub default_params_json : Text
default_params_json = text "{\"max_tokens\":1024,\"temperature\":0.7,\"allow_tools\":false}"

-- The four parts of /ai_preset_add: the name, the provider, the model and the system prompt.
unfoldable pub preset_words : Text → Text × Text × Text × Text
preset_words rem =
    let (name, rem₁) = split_first_word rem in
    let (provider, rem₂) = split_first_word rem₁ in
    let (model, prompt) = split_first_word rem₂ in (name, provider, model, trim_space prompt)

-- The text behind a command, trimmed.
unfoldable pub argument : Incoming → Text
argument msg = trim_space (command_remainder msg.text)

abbrev pub new_preset : ℤ → Text → ℕ → Text → Text → Preset
new_preset chat_id name id model prompt = record {
  chat_id = chat_id;
  name = name;
  provider_instance_id = id;
  model = model;
  system_prompt = prompt;
  params_json = default_params_json;
  created_at = 0;
}

-- The Go code dereferences the message here; an update of a command always has one.
abbrev argument_of : Option Incoming → Text
argument_of none = []
argument_of (some msg) = argument msg

module _ (v : Service) {R : Redis} (ctx : Context) where
  -- A handler that runs only for an administrator.
  abbrev pub as_admin : (ℤ → ℤ → Exec R (Unit {0})) → Option (ℤ × ℤ) → Exec R (Unit {0})
  as_admin f none = pure tt
  as_admin f (some (chat_id, user)) = f chat_id user

  -- Behind `GetDefaultPresetName`: the first preset becomes the default.
  abbrev pub first_default : ℤ → Text → Result Text → Exec R (Unit {0})
  first_default chat_id name (ok _) = pure tt
  first_default chat_id name (err not_found) =
      attempt (Store.set_default_preset chat_id name) >>= λ _. pure tt
  first_default chat_id name (err (failed e)) = pure tt

  abbrev pub preset_saved : ℤ → ℤ → Text → Text → Text → Result (Unit {0}) → Exec R (Unit {0})
  preset_saved chat_id user name provider model (err e) = reply ctx (text "Failed to save preset.")
  preset_saved chat_id user name provider model (ok _) = do
    r ← attempt (Store.get_default_preset_name chat_id)
    first_default chat_id name r
    audit v chat_id user (text "preset_add")
        ((text "name", name) ∷ (text "provider", provider) ∷ (text "model", model) ∷ [])
    reply ctx (text "Preset saved.")

  abbrev pub with_found :
      ℤ → ℤ → Text → Text → Text → Text → Result ProviderInstance → Exec R (Unit {0})
  with_found chat_id user name provider model prompt (err not_found) =
      reply ctx (text "Provider not found.")
  with_found chat_id user name provider model prompt (err (failed e)) =
      reply ctx (text "Failed to read provider.")
  with_found chat_id user name provider model prompt (ok p) =
      attempt (Store.upsert_preset (new_preset chat_id name p.id model prompt))
      >>= preset_saved chat_id user name provider model

  abbrev pub add_words : ℤ → ℤ → Text × Text × Text × Text → Exec R (Unit {0})
  add_words chat_id user (name, provider, model, prompt) =
      if is_empty name || is_empty provider || is_empty model || is_empty prompt
      then reply ctx (text "Usage: /ai_preset_add <name> <provider> <model> <system_prompt...>")
      else attempt (Store.get_provider_by_name chat_id provider)
        >>= with_found chat_id user name provider model prompt

  abbrev pub preset_add_in : Option Incoming → ℤ → ℤ → Exec R (Unit {0})
  preset_add_in none chat_id user = pure tt
  preset_add_in (some msg) chat_id user = add_words chat_id user (preset_words (argument msg))

  -- `aiPresetAdd`
  unfoldable pub ai_preset_add : Exec R (Unit {0})
  ai_preset_add = require_admin v ctx >>= as_admin (preset_add_in ctx.effective_message)

  -- Clears the default if it is the preset that was deleted.
  abbrev pub clear_if : ℤ → Text → Result Text → Exec R (Unit {0})
  clear_if chat_id name (err e) = pure tt
  clear_if chat_id name (ok def) =
      if def == name
      then (attempt (Store.clear_default_preset chat_id) >>= λ _. pure tt)
      else pure tt

  abbrev pub preset_deleted : ℤ → ℤ → Text → Result (Unit {0}) → Exec R (Unit {0})
  preset_deleted chat_id user name (err not_found) = reply ctx (text "Preset not found.")
  preset_deleted chat_id user name (err (failed e)) = reply ctx (text "Failed to delete preset.")
  preset_deleted chat_id user name (ok _) = do
    r ← attempt (Store.get_default_preset_name chat_id)
    clear_if chat_id name r
    audit v chat_id user (text "preset_del") ((text "name", name) ∷ [])
    reply ctx (text "Preset deleted.")

  abbrev pub preset_del_as : Text → ℤ → ℤ → Exec R (Unit {0})
  preset_del_as name chat_id user =
      if is_empty name
      then reply ctx (text "Usage: /ai_preset_del <name>")
      else attempt (Store.delete_preset chat_id name) >>= preset_deleted chat_id user name

  -- `aiPresetDel`
  unfoldable pub ai_preset_del : Exec R (Unit {0})
  ai_preset_del =
      require_admin v ctx >>= as_admin (preset_del_as (argument_of ctx.effective_message))

  abbrev pub default_set : ℤ → ℤ → Text → Result (Unit {0}) → Exec R (Unit {0})
  default_set chat_id user name (err e) = reply ctx (text "Failed to set default preset.")
  default_set chat_id user name (ok _) =
      audit v chat_id user (text "preset_default") ((text "name", name) ∷ [])
      >> reply ctx (text "Default preset updated.")

  abbrev pub default_found : ℤ → ℤ → Text → Result PresetWithProvider → Exec R (Unit {0})
  default_found chat_id user name (err not_found) = reply ctx (text "Preset not found.")
  default_found chat_id user name (err (failed e)) = reply ctx (text "Failed to read preset.")
  default_found chat_id user name (ok _) =
      attempt (Store.set_default_preset chat_id name) >>= default_set chat_id user name

  abbrev pub default_as : Text → ℤ → ℤ → Exec R (Unit {0})
  default_as name chat_id user =
      if is_empty name
      then reply ctx (text "Usage: /ai_default <name>")
      else attempt (Store.get_preset_with_provider_by_name chat_id name)
        >>= default_found chat_id user name

  -- `aiDefault`
  unfoldable pub ai_default : Exec R (Unit {0})
  ai_default = require_admin v ctx >>= as_admin (default_as (argument_of ctx.effective_message))

  abbrev pub provider_deleted : ℤ → ℤ → Text → Result (Unit {0}) → Exec R (Unit {0})
  provider_deleted chat_id user name (err not_found) = reply ctx (text "Provider not found.")
  provider_deleted chat_id user name (err (failed e)) =
      reply ctx (text "Failed to delete provider.")
  provider_deleted chat_id user name (ok _) =
      audit v chat_id user (text "provider_del") ((text "name", name) ∷ [])
      >> reply ctx (text "Provider deleted.")

  abbrev pub llm_del_as : Text → ℤ → ℤ → Exec R (Unit {0})
  llm_del_as name chat_id user =
      if is_empty name
      then reply ctx (text "Usage: /llm_del <name>")
      else attempt (Store.delete_provider_by_name chat_id name)
        >>= provider_deleted chat_id user name

  -- `llmDel`
  unfoldable pub llm_del : Exec R (Unit {0})
  llm_del = require_admin v ctx >>= as_admin (llm_del_as (argument_of ctx.effective_message))
