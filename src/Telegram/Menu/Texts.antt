-- ===== src/Telegram/Menu/Texts.antt =====
-- The texts and the keyboards of internal/telegram/ui.go.
use hyprbot.Telegram.Context.{ChatInfo}
use hyprbot.Strings.{join_lines}
use hyprbot.Prelude.{none, [], ◌∷◌, some, ◌++◌, text, Option, Text}
use hyprbot.System.{Button, Keyboard}

-- cbPrefix
abbrev pub cb_prefix : Text
cb_prefix = text "hb:"

-- What a button's callback carries.
abbrev pub cb_menu : Text
cb_menu = cb_prefix ++ text "menu"

abbrev pub cb_how_ask : Text
cb_how_ask = cb_prefix ++ text "how_ask"

abbrev pub cb_how_ai : Text
cb_how_ai = cb_prefix ++ text "how_ai"

abbrev pub cb_setup : Text
cb_setup = cb_prefix ++ text "setup"

abbrev pub cb_status : Text
cb_status = cb_prefix ++ text "status"

abbrev pub cb_list_presets : Text
cb_list_presets = cb_prefix ++ text "list_presets"

abbrev pub cb_list_providers : Text
cb_list_providers = cb_prefix ++ text "list_providers"

abbrev pub cb_admin_help : Text
cb_admin_help = cb_prefix ++ text "admin_help"

abbrev pub cb_act_llm_add : Text
cb_act_llm_add = cb_prefix ++ text "act_llm_add"

abbrev pub cb_act_llm_list : Text
cb_act_llm_list = cb_prefix ++ text "act_llm_list"

abbrev pub chat_type : Option ChatInfo → Text
chat_type none = text "unknown"
chat_type (some chat) = chat.kind

-- `mainMenuText`
unfoldable pub main_menu_text : Text → Option ChatInfo → Text
main_menu_text access_mode chat = join_lines (
    text "HyprBot menu"
    ∷ []
    ∷ text "Quick commands:"
    ∷ text "/ask <text> - ask using default preset"
    ∷ text "/ai <preset> <text> - ask using explicit preset"
    ∷ text "/ai_list - list chat presets"
    ∷ text "/status - chat status"
    ∷ []
    ∷ text "Admin commands (group/supergroup):"
    ∷ text "/llm_add, /llm_list, /llm_del"
    ∷ text "/ai_preset_add, /ai_preset_del, /ai_default"
    ∷ []
    ∷ (text "Chat type: " ++ chat_type chat)
    ∷ (text "Access mode: " ++ access_mode)
    ∷ text "Use the inline buttons below for navigation."
    ∷ [])

-- `setupText`
unfoldable pub setup_text : Text
setup_text = join_lines (
    text "Setup flow for a new group:"
    ∷ text "1) In the group run /llm_add"
    ∷ text "2) Open the private deep-link from the bot message"
    ∷ text "3) Finish provider wizard in private chat"
    ∷ text "4) Back in group, create preset:"
    ∷ text "   /ai_preset_add <name> <provider> <model> <system_prompt...>"
    ∷ text "5) Set default preset: /ai_default <name>"
    ∷ text "6) Ask: /ask <text>"
    ∷ [])

-- `askUsageText`
unfoldable pub ask_usage_text : Text
ask_usage_text = join_lines (
    text "How to use /ask"
    ∷ []
    ∷ text "Syntax:"
    ∷ text "/ask <text>"
    ∷ []
    ∷ text "Behavior:"
    ∷ text "- Uses the chat default preset"
    ∷ text "- Queues request asynchronously"
    ∷ text "- Sends reply when worker finishes"
    ∷ [])

-- `aiUsageText`
unfoldable pub ai_usage_text : Text
ai_usage_text = join_lines (
    text "How to use /ai"
    ∷ []
    ∷ text "Syntax:"
    ∷ text "/ai <preset> <text>"
    ∷ []
    ∷ text "Behavior:"
    ∷ text "- Uses explicit preset"
    ∷ text "- Good when chat has several presets"
    ∷ text "- Use /ai_list to see available names"
    ∷ [])

-- `adminHelpText`
unfoldable pub admin_help_text : Text
admin_help_text = join_lines (
    text "Admin quick reference"
    ∷ []
    ∷ text "Providers:"
    ∷ text "/llm_add"
    ∷ text "/llm_list"
    ∷ text "/llm_del <name>"
    ∷ []
    ∷ text "Presets:"
    ∷ text "/ai_preset_add <name> <provider> <model> <system_prompt...>"
    ∷ text "/ai_preset_del <name>"
    ∷ text "/ai_default <name>"
    ∷ [])

abbrev button : Text → Text → Button
button label payload = record { label = label; url = []; callback_data = payload }

-- `mainMenuKeyboard`
abbrev pub main_menu_keyboard : Keyboard
main_menu_keyboard =
    (button (text "How /ask works") cb_how_ask ∷ button (text "How /ai works") cb_how_ai ∷ [])
    ∷ (button (text "List presets") cb_list_presets ∷ button (text "Chat status") cb_status ∷ [])
    ∷ (button (text "List providers") cb_list_providers
        ∷ button (text "Admin help") cb_admin_help
        ∷ [])
    ∷ (button (text "Add provider") cb_act_llm_add
        ∷ button (text "Provider summary") cb_act_llm_list
        ∷ [])
    ∷ (button (text "Setup guide") cb_setup ∷ button (text "Refresh") cb_menu ∷ [])
    ∷ []

-- `backToMenuKeyboard`
abbrev pub back_to_menu_keyboard : Keyboard
back_to_menu_keyboard = (button (text "Back to menu") cb_menu ∷ []) ∷ []

-- `setupKeyboard`
abbrev pub setup_keyboard : Keyboard
setup_keyboard =
    (button (text "Add provider") cb_act_llm_add ∷ button (text "Back to menu") cb_menu ∷ []) ∷ []
