-- ===== src/Telegram/Apart.antt =====
-- The helpers of internal/telegram/service.go and handlers.go, and what they leave alone.
pub mod Questions
pub mod Menus
pub mod Buttons
pub mod Dialogues
use hyprbot.Telegram.Service.{
  Service, require_admin, is_admin, reply, reply_to_chat, send_message, fetch_admin, cached_admin,
  with_rights, require_in, refuse, ensure_message, ensure_chat_of, audit,
}
use hyprbot.Telegram.Context.{Incoming, Context, ChatInfo}
use hyprbot.System.Apart.{
  IsApart, Keeps-ensure_chat, Keeps-set_admin_cache, Keeps-log_action, Keeps-call_redis,
}
use hyprbot.System.Keeps.{Keeps, Keeps-call, Keeps-attempt, Keeps-bind, Keeps-pure, keeps_rules}
use hyprbot.System.{◌>>=◌, ◌>>◌, Exec, Sys, Keyboard}
use hyprbot.Redis.{Redis}
use hyprbot.Prelude.{true, false, err, Bool, none, ok, Result, some, List, Text, Option, ℤ}

module _ {R : Redis} {P : Sys R → Type 0} ⦃a : IsApart P⦄ where
  pub Keeps-send_message : (c : ℤ) (t : Text) (k : Keyboard) → Keeps P (send_message {R = R} c t k)
  unfolding send_message
  Keeps-send_message c t k = Keeps-call _ _ (λ s h. a.outside s _ _ _ _ _ h)

  Keeps-reply_to : (c : Option ChatInfo) (t : Text) → Keeps P (reply_to_chat c t)
  Keeps-reply_to none t = Keeps-pure tt
  Keeps-reply_to (some c) t = Keeps-send_message _ _ _

  pub Keeps-reply : (ctx : Context) (t : Text) → Keeps P (reply ctx t)
  unfolding reply
  Keeps-reply ctx t = Keeps-reply_to ctx.effective_chat t

  pub Keeps-ensure_chat_of : (m : Incoming) → Keeps P (ensure_chat_of m)
  unfolding ensure_chat_of
  Keeps-ensure_chat_of m = search (keeps_rules, Keeps-ensure_chat)

  module _ (v : Service) where
    pub Keeps-audit : (c u : ℤ) (x : Text) (m : List (Text × Text)) → Keeps P (audit v c u x m)
    unfolding audit
    Keeps-audit c u x m = search (keeps_rules, Keeps-log_action)

    Keeps-fetch_admin : (c u : ℤ) → Keeps P (fetch_admin v c u)
    Keeps-fetch_admin c u = Keeps-bind _ _ (Keeps-call _ _ (λ s h. h)) (λ st.
        Keeps-bind _ _ (Keeps-attempt _ (Keeps-call_redis _ _))
          (λ x. Keeps-bind _ _ (Keeps-attempt _ (Keeps-set_admin_cache c u _)) (λ y. Keeps-pure _)))

    Keeps-cached_admin : (c u : ℤ) (r : Result (Option Text)) → Keeps P (cached_admin v c u r)
    Keeps-cached_admin c u (ok (some x)) = Keeps-pure _
    Keeps-cached_admin c u (ok none) = Keeps-fetch_admin c u
    Keeps-cached_admin c u (err e) = Keeps-fetch_admin c u

    pub Keeps-is_admin : (c u : ℤ) → Keeps P (is_admin v c u)
    unfolding is_admin
    Keeps-is_admin c u =
        Keeps-bind _ _ (Keeps-attempt _ (Keeps-call _ _ (λ s h. h))) (λ r. Keeps-cached_admin c u r)

    pub Keeps-ensure_message : (m : Option Incoming) → Keeps P (ensure_message v m)
    Keeps-ensure_message none = Keeps-pure tt
    Keeps-ensure_message (some m) = Keeps-ensure_chat_of m

    Keeps-with_rights :
        (ctx : Context) (c u : ℤ) (r : Result Bool) → Keeps P (with_rights v ctx c u r)
    Keeps-with_rights ctx c u (err e) = search (keeps_rules, Keeps-reply)
    Keeps-with_rights ctx c u (ok false) = search (keeps_rules, Keeps-reply)
    Keeps-with_rights ctx c u (ok true) = search (keeps_rules, Keeps-ensure_message)

    Keeps-require_in :
        (ctx : Context) (c : Option ChatInfo) (u : Option ℤ) → Keeps P (require_in v ctx c u)
    Keeps-require_in ctx none u = Keeps-pure none
    Keeps-require_in ctx (some c) none = Keeps-pure none
    Keeps-require_in ctx (some c) (some u) =
        search (keeps_rules, Keeps-reply, Keeps-is_admin, Keeps-with_rights)

    pub Keeps-require_admin : (ctx : Context) → Keeps P (require_admin v ctx)
    unfolding require_admin
    Keeps-require_admin ctx = Keeps-require_in ctx ctx.effective_chat ctx.effective_user
