-- ===== src/Examples/Menus.antt =====
-- The theorems on the buttons and the dispatcher of internal/telegram, applied.
use hyprbot.Telegram.Callbacks.{action_of, on_callback, list_providers}
use hyprbot.Telegram.Callbacks.Buttons.{IsKnown, menu_buttons-IsKnown}
use hyprbot.Telegram.Callbacks.Hidden.{OnlyRefusals, providers_hidden}
use hyprbot.Telegram.Lists.{llm_list}
use hyprbot.Telegram.Menu.Texts.{cb_list_providers, cb_menu}
use hyprbot.Telegram.Context.{Context, CallbackQuery}
use hyprbot.Telegram.Dispatch.{Library, dispatch, is_private_text}
use hyprbot.Telegram.Dispatch.Others.{configured, dispatch_others}
use hyprbot.Telegram.Service.{is_admin_status}
use hyprbot.Examples.Telegram.{service, group, update, calm}
use hyprbot.Strings.{trim_space}
use hyprbot.System.{Button}
use hyprbot.Prelude.{arith, false, none, text_eq, inl, pos, true, [], some, ◌≡◌, inr, text, refl}

abbrev back : Button
back = record { label = text "Back to menu"; url = []; callback_data = cb_menu }

menu_buttons-IsKnown_example : IsKnown back
menu_buttons-IsKnown_example = menu_buttons-IsKnown back (inr (inl (inl (inl refl))))

abbrev query : CallbackQuery
query = record {
  id = text "q";
  payload = cb_list_providers;
  message = some (record { message_id = pos 4; chat_id = pos 5 });
}

abbrev press : Context
press = record update { callback_query = some query }

lists_providers : action_of (trim_space query.payload) ≡ some list_providers
unfolding action_of trim_space text text_eq
lists_providers = refl

plain : is_admin_status [] ≡ false
unfolding is_admin_status text text_eq
plain = refl

providers_hidden_example :
    let s = (llm_list update service calm).1.sys in
    let s' = (on_callback service press calm).1.sys in
    (s.edits ≡ []) × OnlyRefusals [] s.outbox × (s'.edits ≡ []) × OnlyRefusals [] s'.outbox
providers_hidden_example =
    providers_hidden service update press group (pos 7) query calm refl refl refl refl refl
      (inl lists_providers) (λ e. absurd (ground arith)) plain

abbrev pub library : Library
library = record { command_of = λ ctx. some (text "llm_del"); is_new_text = λ ctx. true }

in_group : is_private_text library press ≡ false
unfolding is_private_text text text_eq
in_group = refl

dispatch_others_example :
    configured (dispatch service (text "n") none none press library calm).1.sys.db
    ≡ configured calm.sys.db
dispatch_others_example =
    dispatch_others service (text "n") none none press library group (pos 7) calm refl refl
      (λ e. absurd (ground arith)) plain in_group
