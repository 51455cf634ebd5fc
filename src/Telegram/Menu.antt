-- ===== src/Telegram/Menu.antt =====
-- internal/telegram/ui.go: the texts and the keyboards of the menu, and the commands that show them.
pub mod Texts
use hyprbot.Telegram.Menu.Texts.{
  main_menu_text, setup_text, main_menu_keyboard, back_to_menu_keyboard, setup_keyboard,
}
use hyprbot.Telegram.Service.{Service, reply, send_message}
use hyprbot.Telegram.Context.{Context, ChatInfo, is_private}
use hyprbot.Telegram.Commands.{start_arg, StartArg, plain, invalid, wizard}
use hyprbot.Telegram.Lists.{name_or_empty, preset_lines, provider_lines}
use hyprbot.Strings.{join_lines}
use hyprbot.Telegram.Wizard.Dialogue.{begin_wizard}
use hyprbot.Storage.Store
use hyprbot.Storage.Tables.{Preset, ProviderInstance}
use hyprbot.Strings.Decimal.{format_int}
use hyprbot.System.{Exec, pure, attempt, ◌>>=◌, Keyboard}
use hyprbot.Redis.{Redis}
use hyprbot.Prelude.{
  pos, [], ◌++◌, length, err, if◌then◌else◌, none, ok, some, ◌∷◌, ℤ, Text, text, List, ℕ, Option,
  Result,
}

-- The lengths and the name of `statusText`, where an error leaves the value that it starts with.
abbrev pub count_of : {A : Type 0} → Result (List A) → ℕ
count_of (ok xs) = length xs
count_of (err e) = 0

abbrev pub name_of : Result Text → Text
name_of (ok name) = name
name_of (err e) = text "<not set>"

abbrev pub status_lines : Service → ChatInfo → ℕ → ℕ → Text → Text
status_lines v chat presets providers name = join_lines (
    text "Chat status"
    ∷ (text "chat_id: " ++ format_int chat.id)
    ∷ (text "chat_type: " ++ chat.kind)
    ∷ (text "providers: " ++ format_int (pos providers))
    ∷ (text "presets: " ++ format_int (pos presets))
    ∷ (text "default_preset: " ++ name)
    ∷ (text "access_mode: " ++ v.access_mode)
    ∷ [])

abbrev pub providers_text : List ProviderInstance → Text
providers_text [] = text "No providers configured for this chat."
providers_text (p ∷ ps) = join_lines (text "Providers:" ∷ provider_lines (p ∷ ps))

-- `args[1]`, if there is one.
abbrev pub second : List Text → Option Text
second [] = none
second (a ∷ []) = none
second (a ∷ b ∷ args) = some b

module _ {R : Redis} where
  abbrev pub reply_in : Option ChatInfo → Text → Keyboard → Exec R (Unit {0})
  reply_in none t keyboard = pure tt
  reply_in (some chat) t keyboard = send_message chat.id t keyboard

  -- `replyWithMarkup`
  unfoldable pub reply_with_markup : Context → Text → Keyboard → Exec R (Unit {0})
  reply_with_markup ctx t keyboard = reply_in ctx.effective_chat t keyboard

  abbrev pub status_in : Service → Option ChatInfo → Exec R Text
  status_in v none = pure (text "Chat is not available for status.")
  status_in v (some chat) = do
    presets ← attempt (Store.list_presets chat.id)
    providers ← attempt (Store.list_providers chat.id)
    name ← attempt (Store.get_default_preset_name chat.id)
    pure (status_lines v chat (count_of presets) (count_of providers) (name_of name))

  -- `statusText`
  unfoldable pub status_text : Service → Context → Exec R Text
  status_text v ctx = status_in v ctx.effective_chat

  abbrev pub presets_text : ℤ → List Preset → Exec R Text
  presets_text chat_id [] = pure (text "No presets configured for this chat.")
  presets_text chat_id (p ∷ ps) = attempt (Store.get_default_preset_name chat_id) >>= λ r.
      pure (join_lines (text "Presets:" ∷ preset_lines (name_or_empty r) (p ∷ ps)))

  -- `buildPresetListText`
  unfoldable pub build_preset_list_text : ℤ → Exec R Text
  build_preset_list_text chat_id = Store.list_presets chat_id >>= presets_text chat_id

  -- `buildProviderListText`
  unfoldable pub build_provider_list_text : ℤ → Exec R Text
  build_provider_list_text chat_id = Store.list_providers chat_id >>= λ ps. pure (providers_text ps)

module _ (v : Service) {R : Redis} (ctx : Context) where
  -- `sendMainMenu`
  unfoldable pub send_main_menu : Exec R (Unit {0})
  send_main_menu =
      reply_with_markup ctx (main_menu_text v.access_mode ctx.effective_chat) main_menu_keyboard

  -- `menu`
  unfoldable pub menu : Exec R (Unit {0})
  unfolding send_main_menu
  menu = send_main_menu

  -- `help`
  unfoldable pub help : Exec R (Unit {0})
  unfolding send_main_menu
  help = send_main_menu

  -- `setup`
  unfoldable pub setup : Exec R (Unit {0})
  setup = reply_with_markup ctx setup_text setup_keyboard

  -- `status`
  unfoldable pub status : Exec R (Unit {0})
  status = status_text v ctx >>= λ t. reply_with_markup ctx t back_to_menu_keyboard

  abbrev pub start_with : StartArg → Exec R (Unit {0})
  start_with plain = send_main_menu
  start_with invalid = reply ctx (text "Invalid deep-link payload.")
  start_with (wizard chat_id) = begin_wizard v ctx chat_id

  abbrev pub start_args : ChatInfo → Option Text → Exec R (Unit {0})
  start_args chat none = send_main_menu
  start_args chat (some arg) =
      if is_private chat then start_with (start_arg arg) else send_main_menu

  abbrev pub start_in : Option ChatInfo → Exec R (Unit {0})
  start_in none = pure tt
  start_in (some chat) = start_args chat (second ctx.args)

  -- `start`
  unfoldable pub start : Exec R (Unit {0})
  unfolding send_main_menu
  start = start_in ctx.effective_chat
