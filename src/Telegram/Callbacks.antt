-- ===== src/Telegram/Callbacks.antt =====
-- internal/telegram/callbacks.go: what the buttons of the menu do.
pub mod Buttons
pub mod Hidden
use hyprbot.Telegram.Menu.Texts.{
  main_menu_text, setup_text, ask_usage_text, ai_usage_text, admin_help_text, main_menu_keyboard,
  back_to_menu_keyboard, setup_keyboard, cb_menu, cb_how_ask, cb_how_ai, cb_setup, cb_status,
  cb_list_presets, cb_list_providers, cb_admin_help, cb_act_llm_add, cb_act_llm_list,
}
use hyprbot.Telegram.Menu.{
  reply_with_markup, status_text, build_preset_list_text, build_provider_list_text,
}
use hyprbot.Telegram.Lists.{llm_add, llm_list}
use hyprbot.Telegram.Service.{Service, require_admin}
use hyprbot.Telegram.Context.{Context, ChatInfo, CallbackQuery, CallbackMessage}
use hyprbot.System.{Sys, Exec, pure, attempt, call, ◌>>=◌, ◌>>◌, Keyboard}
use hyprbot.Strings.{trim_space, to_lower, contains}
use hyprbot.Prelude.{
  ◌∷◌, text_has_eq, false, not_found, true, ok, failed, err, ◌++◌, [], ◌==◌, none, text,
  if◌then◌else◌, ℤ, some, Result, Bool, Error, Text, Option,
}
use hyprbot.Redis.{Redis}

-- The cases of the switch.
pub data Action : Type 0 where
  menu how_ask how_ai setup status list_presets list_providers admin_help act_llm_add act_llm_list :
      Action

unfoldable pub action_of : Text → Option Action
action_of t =
    if t == cb_menu
    then some menu
    else if t == cb_how_ask
    then some how_ask
    else if t == cb_how_ai
    then some how_ai
    else if t == cb_setup
    then some setup
    else if t == cb_status
    then some status
    else if t == cb_list_presets
    then some list_presets
    else if t == cb_list_providers
    then some list_providers
    else if t == cb_admin_help
    then some admin_help
    else if t == cb_act_llm_add
    then some act_llm_add
    else if t == cb_act_llm_list
    then some act_llm_list
    else none

-- `err.Error()`
abbrev error_text : Error → Text
error_text not_found = text "not found"
error_text (failed e) = text e

-- `strings.Contains(strings.ToLower(err.Error()), "message is not modified")`
unfoldable pub is_not_modified : Text → Bool
is_not_modified e = contains (to_lower e) (text "message is not modified")

abbrev chat_of_message : Option CallbackMessage → Option ℤ
chat_of_message none = none
chat_of_message (some m) = some m.chat_id

abbrev chat_of_query : Option CallbackQuery → Option ℤ
chat_of_query none = none
chat_of_query (some q) = chat_of_message q.message

abbrev callback_chat : Option ChatInfo → Option CallbackQuery → Option ℤ
callback_chat none q = chat_of_query q
callback_chat (some chat) q = some chat.id

-- `callbackChatID`
unfoldable pub callback_chat_id : Context → Option ℤ
callback_chat_id ctx = callback_chat ctx.effective_chat ctx.callback_query

module _ {R : Redis} where
  abbrev pub answer_to : Option CallbackQuery → Text → Bool → Exec R (Unit {0})
  answer_to none t alert = pure tt
  answer_to (some q) t alert =
      attempt (
        call
          (λ s. (
            tt,
            record s {
              answers = s.answers ++ record { query_id = q.id; text = t; show_alert = alert } ∷ [];
            },
          ))
          "answer callback query")
      >>= λ _. pure tt

  -- `answerCallback`
  unfoldable pub answer_callback : Context → Text → Bool → Exec R (Unit {0})
  answer_callback ctx t alert = answer_to ctx.callback_query t alert

-- The text of a message that is edited, unless Telegram answers with an error.
abbrev pub apply_edit :
    {R : Redis} → CallbackMessage → Text → Keyboard → Option Text → Sys R → Option Text × Sys R
apply_edit m t keyboard (some e) s = (some e, s)
apply_edit m t keyboard none s = (
  none,
  record s {
    edits =
        s.edits
        ++ record { chat_id = m.chat_id; message_id = m.message_id; keyboard = keyboard; text = t }
          ∷ [];
  },
)

module _ (v : Service) {R : Redis} (ctx : Context) where
  -- `EditText`: Telegram may refuse it, and then the message is as it was.
  unfoldable pub edit_text : CallbackMessage → Text → Keyboard → Exec R (Option Text)
  edit_text m t keyboard =
      call (apply_edit m t keyboard (v.edit_refusal m.chat_id m.message_id t keyboard))
        "edit message"

  abbrev pub not_edited : Text → Text → Keyboard → Exec R (Unit {0})
  not_edited e t keyboard = if is_not_modified e then pure tt else reply_with_markup ctx t keyboard

  abbrev pub edited : Text → Keyboard → Result (Option Text) → Exec R (Unit {0})
  edited t keyboard (ok none) = pure tt
  edited t keyboard (ok (some e)) = not_edited e t keyboard
  edited t keyboard (err e) = not_edited (error_text e) t keyboard

  abbrev pub edit_message : Option CallbackMessage → Text → Keyboard → Exec R (Unit {0})
  edit_message none t keyboard = reply_with_markup ctx t keyboard
  edit_message (some m) t keyboard = attempt (edit_text m t keyboard) >>= edited t keyboard

  abbrev pub edit_query : Option CallbackQuery → Text → Keyboard → Exec R (Unit {0})
  edit_query none t keyboard = reply_with_markup ctx t keyboard
  edit_query (some q) t keyboard = edit_message q.message t keyboard

  -- `editOrReplyCallback`
  unfoldable pub edit_or_reply : Text → Keyboard → Exec R (Unit {0})
  edit_or_reply t keyboard = edit_query ctx.callback_query t keyboard

  -- The list of presets.
  abbrev pub listed : Text → Result Text → Exec R (Unit {0})
  listed failure (err e) = answer_callback ctx failure true
  listed failure (ok t) = edit_or_reply t back_to_menu_keyboard

  abbrev pub presets_of : Option ℤ → Exec R (Unit {0})
  presets_of none = answer_callback ctx (text "Chat is unavailable for this action.") true
  presets_of (some chat_id) =
      attempt (build_preset_list_text chat_id) >>= listed (text "Failed to load presets.")

  -- An action for administrators, and what the others are told.
  abbrev pub for_admin : Text → (ℤ → Exec R (Unit {0})) → Option (ℤ × ℤ) → Exec R (Unit {0})
  for_admin refusal f none = answer_callback ctx refusal true
  for_admin refusal f (some (chat_id, user)) = f chat_id

  abbrev pub providers_of : ℤ → Exec R (Unit {0})
  providers_of chat_id =
      attempt (build_provider_list_text chat_id) >>= listed (text "Failed to load providers.")

  abbrev pub act : Text → Option Action → Exec R (Unit {0})
  act t none = answer_callback ctx (text "Unknown action: " ++ t) true
  act t (some menu) =
      edit_or_reply (main_menu_text v.access_mode ctx.effective_chat) main_menu_keyboard
  act t (some how_ask) = edit_or_reply ask_usage_text back_to_menu_keyboard
  act t (some how_ai) = edit_or_reply ai_usage_text back_to_menu_keyboard
  act t (some setup) = edit_or_reply setup_text setup_keyboard
  act t (some status) = status_text v ctx >>= λ st. edit_or_reply st back_to_menu_keyboard
  act t (some list_presets) = presets_of (callback_chat_id ctx)
  act t (some list_providers) =
      require_admin v ctx >>= for_admin (text "Only chat admins can view providers.") providers_of
  act t (some admin_help) = edit_or_reply admin_help_text back_to_menu_keyboard
  act t (some act_llm_add) =
      require_admin v ctx
      >>= for_admin (text "Only chat admins can add providers.")
          (λ _. llm_add ctx v >> answer_callback ctx (text "Deep-link sent to chat.") false)
  act t (some act_llm_list) =
      require_admin v ctx
      >>= for_admin (text "Only chat admins can list providers.")
          (λ _. llm_list ctx v >> answer_callback ctx (text "Provider summary sent.") false)

  abbrev pub pressed : Option CallbackQuery → Exec R (Unit {0})
  pressed none = pure tt
  pressed (some q) =
      answer_callback ctx [] false >> act (trim_space q.payload) (action_of (trim_space q.payload))

  -- `onCallback`
  unfoldable pub on_callback : Exec R (Unit {0})
  on_callback = pressed ctx.callback_query
