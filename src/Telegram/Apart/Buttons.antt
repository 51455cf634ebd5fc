-- ===== src/Telegram/Apart/Buttons.antt =====
-- The menu of internal/telegram/ui.go and the buttons of callbacks.go, and what they leave alone.
use hyprbot.Telegram.Apart.{Keeps-send_message, Keeps-require_admin}
use hyprbot.Telegram.Apart.Menus.{Keeps-llm_add, Keeps-llm_list}
use hyprbot.Telegram.Menu.{
  reply_in, reply_with_markup, status_in, status_text, build_preset_list_text, presets_text,
  build_provider_list_text, send_main_menu, setup, status,
}
use hyprbot.Telegram.Callbacks.{
  answer_to, answer_callback, edit_text, not_edited, edited, edit_message, edit_query,
  edit_or_reply, listed, presets_of, for_admin, providers_of, act, pressed, on_callback, Action,
  how_ask, how_ai, list_presets, list_providers, admin_help, act_llm_add, act_llm_list,
  callback_chat_id, is_not_modified, apply_edit,
}
use hyprbot.Telegram.Callbacks
use hyprbot.Telegram.Service.{require_admin, Service}
use hyprbot.Telegram.Context.{Context, ChatInfo, CallbackQuery, CallbackMessage}
use hyprbot.Storage.Tables.{Preset}
use hyprbot.System.Apart.{IsApart, Keeps-list_presets, Keeps-list_providers, Keeps-get_default}
use hyprbot.System.Keeps.{Keeps, Keeps-call, Keeps-attempt, Keeps-bind, Keeps-pure, Keeps-if}
use hyprbot.System.{◌>>=◌, Exec, Sys, Keyboard}
use hyprbot.Redis.{Redis}
use hyprbot.Prelude.{[], err, ◌∷◌, ok, none, Bool, some, Result, List, Text, ℤ, Option}

module _ {R : Redis} {P : Sys R → Type 0} ⦃a : IsApart P⦄ where
  Keeps-reply_in : (c : Option ChatInfo) (t : Text) (k : Keyboard) → Keeps P (reply_in c t k)
  Keeps-reply_in none t k = Keeps-pure tt
  Keeps-reply_in (some c) t k = Keeps-send_message _ _ _

  Keeps-reply_with_markup :
      (ctx : Context) (t : Text) (k : Keyboard) → Keeps P (reply_with_markup ctx t k)
  unfolding reply_with_markup
  Keeps-reply_with_markup ctx t k = Keeps-reply_in ctx.effective_chat t k

  Keeps-status_in : (v : Service) (c : Option ChatInfo) → Keeps P (status_in v c)
  Keeps-status_in v none = Keeps-pure _
  Keeps-status_in v (some c) = Keeps-bind _ _ (Keeps-attempt _ (Keeps-list_presets c.id)) (λ x.
      Keeps-bind _ _ (Keeps-attempt _ (Keeps-list_providers c.id))
        (λ y. Keeps-bind _ _ (Keeps-attempt _ (Keeps-get_default c.id)) (λ z. Keeps-pure _)))

  Keeps-status_text : (v : Service) (ctx : Context) → Keeps P (status_text v ctx)
  unfolding status_text
  Keeps-status_text v ctx = Keeps-status_in v ctx.effective_chat

  Keeps-presets_text : (c : ℤ) (ps : List Preset) → Keeps P (presets_text c ps)
  Keeps-presets_text c [] = Keeps-pure _
  Keeps-presets_text c (p ∷ ps) =
      Keeps-bind _ _ (Keeps-attempt _ (Keeps-get_default c)) (λ r. Keeps-pure _)

  Keeps-preset_list : (c : ℤ) → Keeps P (build_preset_list_text c)
  unfolding build_preset_list_text
  Keeps-preset_list c = Keeps-bind _ _ (Keeps-list_presets c) (λ ps. Keeps-presets_text c ps)

  Keeps-provider_list : (c : ℤ) → Keeps P (build_provider_list_text c)
  unfolding build_provider_list_text
  Keeps-provider_list c = Keeps-bind _ _ (Keeps-list_providers c) (λ ps. Keeps-pure _)

  Keeps-answer_to : (q : Option CallbackQuery) (t : Text) (b : Bool) → Keeps P (answer_to q t b)
  Keeps-answer_to none t b = Keeps-pure tt
  Keeps-answer_to (some q) t b =
      Keeps-bind _ _ (Keeps-attempt _ (Keeps-call _ _ (λ s h. a.outside s _ _ _ _ _ h)))
        (λ r. Keeps-pure tt)

  Keeps-answer_callback : (ctx : Context) (t : Text) (b : Bool) → Keeps P (answer_callback ctx t b)
  unfolding answer_callback
  Keeps-answer_callback ctx t b = Keeps-answer_to ctx.callback_query t b

  module _ (v : Service) (ctx : Context) where
    pub Keeps-send_main_menu : Keeps P (send_main_menu v ctx)
    unfolding send_main_menu
    Keeps-send_main_menu = Keeps-reply_with_markup ctx _ _

    pub Keeps-setup : Keeps P (setup v ctx)
    unfolding setup
    Keeps-setup = Keeps-reply_with_markup ctx _ _

    pub Keeps-status : Keeps P (status v ctx)
    unfolding status
    Keeps-status = Keeps-bind _ _ (Keeps-status_text v ctx) (λ t. Keeps-reply_with_markup ctx _ _)

    Keeps-edit_text :
        (m : CallbackMessage) (t : Text) (k : Keyboard) → Keeps P (edit_text v ctx m t k)
    unfolding edit_text
    Keeps-edit_text m t k =
        Keeps-call _ _ (λ s h. by_answer s (v.edit_refusal m.chat_id m.message_id t k) h)
      where
        by_answer : (s : Sys R) (o : Option Text) → P s → P (apply_edit m t k o s).1
        by_answer s none h = a.outside s _ _ _ _ _ h
        by_answer s (some e) h = h

    Keeps-not_edited : (e t : Text) (k : Keyboard) → Keeps P (not_edited v ctx e t k)
    Keeps-not_edited e t k =
        Keeps-if (is_not_modified e) _ _ (λ x. Keeps-pure tt) (λ x. Keeps-reply_with_markup ctx t k)

    Keeps-edited :
        (t : Text) (k : Keyboard) (r : Result (Option Text)) → Keeps P (edited v ctx t k r)
    Keeps-edited t k (ok none) = Keeps-pure tt
    Keeps-edited t k (ok (some e)) = Keeps-not_edited e t k
    Keeps-edited t k (err e) = Keeps-not_edited _ t k

    Keeps-edit_query :
        (q : Option CallbackQuery) (t : Text) (k : Keyboard) → Keeps P (edit_query v ctx q t k)
    Keeps-edit_query none t k = Keeps-reply_with_markup ctx t k
    Keeps-edit_query (some q) t k = by_message q.message
      where
        by_message : (m : Option CallbackMessage) → Keeps P (edit_message v ctx m t k)
        by_message none = Keeps-reply_with_markup ctx t k
        by_message (some m) =
            Keeps-bind _ _ (Keeps-attempt _ (Keeps-edit_text m t k)) (λ r. Keeps-edited t k r)

    Keeps-edit_or_reply : (t : Text) (k : Keyboard) → Keeps P (edit_or_reply v ctx t k)
    unfolding edit_or_reply
    Keeps-edit_or_reply t k = Keeps-edit_query ctx.callback_query t k

    Keeps-listed : (t : Text) (r : Result Text) → Keeps P (listed v ctx t r)
    Keeps-listed t (err e) = Keeps-answer_callback ctx _ _
    Keeps-listed t (ok l) = Keeps-edit_or_reply _ _

    Keeps-presets_of : (o : Option ℤ) → Keeps P (presets_of v ctx o)
    Keeps-presets_of none = Keeps-answer_callback ctx _ _
    Keeps-presets_of (some c) =
        Keeps-bind _ _ (Keeps-attempt _ (Keeps-preset_list c)) (λ r. Keeps-listed _ r)

    Keeps-for_admin :
        (t : Text) (f : ℤ → Exec R (Unit {0}))
        → ((c : ℤ) → Keeps P (f c))
        → Keeps P (require_admin v ctx >>= for_admin v ctx t f)
    Keeps-for_admin t f k =
        Keeps-bind _ _ (Keeps-require_admin v ctx)
          (elim [ none ↦ Keeps-answer_callback ctx _ _ | some (c, u) ↦ k c ])

    Keeps-act : (t : Text) (o : Option Action) → Keeps P (act v ctx t o)
    Keeps-act t none = Keeps-answer_callback ctx _ _
    Keeps-act t (some Callbacks.menu) = Keeps-edit_or_reply _ _
    Keeps-act t (some how_ask) = Keeps-edit_or_reply _ _
    Keeps-act t (some how_ai) = Keeps-edit_or_reply _ _
    Keeps-act t (some Callbacks.setup) = Keeps-edit_or_reply _ _
    Keeps-act t (some Callbacks.status) =
        Keeps-bind _ _ (Keeps-status_text v ctx) (λ st. Keeps-edit_or_reply _ _)
    Keeps-act t (some list_presets) = Keeps-presets_of _
    Keeps-act t (some list_providers) =
        Keeps-for_admin _ _
          (λ c. Keeps-bind _ _ (Keeps-attempt _ (Keeps-provider_list c)) (λ r. Keeps-listed _ r))
    Keeps-act t (some admin_help) = Keeps-edit_or_reply _ _
    Keeps-act t (some act_llm_add) =
        Keeps-for_admin _ _
          (λ c. Keeps-bind _ _ (Keeps-llm_add v ctx) (λ x. Keeps-answer_callback ctx _ _))
    Keeps-act t (some act_llm_list) =
        Keeps-for_admin _ _
          (λ c. Keeps-bind _ _ (Keeps-llm_list v ctx) (λ x. Keeps-answer_callback ctx _ _))

    Keeps-pressed : (q : Option CallbackQuery) → Keeps P (pressed v ctx q)
    Keeps-pressed none = Keeps-pure tt
    Keeps-pressed (some q) = Keeps-bind _ _ (Keeps-answer_callback ctx _ _) (λ x. Keeps-act _ _)

    pub Keeps-on_callback : Keeps P (on_callback v ctx)
    unfolding on_callback
    Keeps-on_callback = Keeps-pressed ctx.callback_query
