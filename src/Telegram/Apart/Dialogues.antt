-- ===== src/Telegram/Apart/Dialogues.antt =====
-- The wizard's store of internal/telegram/wizard.go, its beginning and its end by /cancel, and /start
-- of handlers.go, and what they leave alone.
use hyprbot.Telegram.Apart.{Keeps-reply, Keeps-is_admin}
use hyprbot.Telegram.Apart.Buttons.{Keeps-send_main_menu}
use hyprbot.Telegram.Wizard.Dialogue.{
  unmarshalled, set_wizard, get_wizard, clear_wizard, decoded, begin_as, begin_in, begin_wizard,
  cancel_in, cancel_wizard,
}
use hyprbot.Telegram.Menu.{start, start_in, start_args, start_with, second}
use hyprbot.Telegram.Commands.{StartArg, plain, invalid, wizard, start_arg}
use hyprbot.Telegram.Service.{Service, WizardState}
use hyprbot.Telegram.Context.{Context, ChatInfo, is_private}
use hyprbot.System.Apart.{IsApart, Keeps-ensure_chat, Keeps-call_redis}
use hyprbot.System.{Sys}
use hyprbot.System.Keeps.{
  Keeps, Keeps-call, Keeps-attempt, Keeps-bind, Keeps-pure, Keeps-raise, Keeps-if,
}
use hyprbot.Redis.{Redis}
use hyprbot.Prelude.{true, false, err, none, ok, Bool, Result, Text, some, ℤ, Option}

module _ {R : Redis} {P : Sys R → Type 0} ⦃a : IsApart P⦄ where
  pub Keeps-clear_wizard : (u : ℤ) → Keeps P (clear_wizard u)
  unfolding clear_wizard
  Keeps-clear_wizard u = Keeps-call_redis _ _

  Keeps-cancel_in :
      (ctx : Context) (c : Option ChatInfo) (u : Option ℤ) → Keeps P (cancel_in ctx c u)
  Keeps-cancel_in ctx none u = Keeps-pure tt
  Keeps-cancel_in ctx (some c) none = Keeps-pure tt
  Keeps-cancel_in ctx (some c) (some u) =
      Keeps-if (is_private c) _ _
        (λ e.
          Keeps-bind _ _ (Keeps-attempt _ (Keeps-clear_wizard u))
            (elim [ ok x ↦ Keeps-reply ctx _ | err x ↦ Keeps-reply ctx _ ]))
        (λ e. Keeps-pure tt)

  pub Keeps-cancel_wizard : (ctx : Context) → Keeps P (cancel_wizard ctx)
  unfolding cancel_wizard
  Keeps-cancel_wizard ctx = Keeps-cancel_in ctx ctx.effective_chat ctx.effective_user

  module _ (v : Service) where
    pub Keeps-set_wizard : (u : ℤ) (st : WizardState) → Keeps P (set_wizard v u st)
    unfolding set_wizard
    Keeps-set_wizard u st = Keeps-call_redis _ _

    Keeps-unmarshalled : (o : Option WizardState) → Keeps P (unmarshalled v o)
    Keeps-unmarshalled none = Keeps-raise _
    Keeps-unmarshalled (some st) = Keeps-pure _

    Keeps-decoded : (o : Option Text) → Keeps P (decoded v o)
    Keeps-decoded none = Keeps-pure none
    Keeps-decoded (some raw) = Keeps-unmarshalled (v.wizard_json.unmarshal raw)

    pub Keeps-get_wizard : (u : ℤ) → Keeps P (get_wizard v u)
    unfolding get_wizard
    Keeps-get_wizard u = Keeps-bind _ _ (Keeps-call _ _ (λ s h. h)) (λ o. Keeps-decoded o)

    Keeps-begin_as :
        (ctx : Context) (u target : ℤ) (r : Result Bool) → Keeps P (begin_as v ctx u target r)
    Keeps-begin_as ctx u target (err e) = Keeps-reply ctx _
    Keeps-begin_as ctx u target (ok false) = Keeps-reply ctx _
    Keeps-begin_as ctx u target (ok true) =
        Keeps-bind _ _ (Keeps-attempt _ (Keeps-ensure_chat target _ _)) (λ x.
          Keeps-bind _ _ (Keeps-attempt _ (Keeps-set_wizard u _))
            (elim [ ok x ↦ Keeps-reply ctx _ | err e ↦ Keeps-reply ctx _ ]))

    Keeps-begin_in :
        (ctx : Context) (c : Option ChatInfo) (u : Option ℤ) (target : ℤ)
        → Keeps P (begin_in v ctx c u target)
    Keeps-begin_in ctx none u target = Keeps-pure tt
    Keeps-begin_in ctx (some c) none target = Keeps-pure tt
    Keeps-begin_in ctx (some c) (some u) target =
        Keeps-if (is_private c) _ _
          (λ e.
            Keeps-bind _ _ (Keeps-attempt _ (Keeps-is_admin v target u))
              (λ r. Keeps-begin_as ctx u target r))
          (λ e. Keeps-pure tt)

    pub Keeps-begin_wizard : (ctx : Context) (target : ℤ) → Keeps P (begin_wizard v ctx target)
    unfolding begin_wizard
    Keeps-begin_wizard ctx target = Keeps-begin_in ctx ctx.effective_chat ctx.effective_user target

    Keeps-start_with : (ctx : Context) (x : StartArg) → Keeps P (start_with v ctx x)
    Keeps-start_with ctx plain = Keeps-send_main_menu v ctx
    Keeps-start_with ctx invalid = Keeps-reply ctx _
    Keeps-start_with ctx (wizard c) = Keeps-begin_wizard ctx c

    Keeps-start_args :
        (ctx : Context) (c : ChatInfo) (o : Option Text) → Keeps P (start_args v ctx c o)
    Keeps-start_args ctx c none = Keeps-send_main_menu v ctx
    Keeps-start_args ctx c (some arg) =
        Keeps-if (is_private c) _ _ (λ e. Keeps-start_with ctx (start_arg arg))
          (λ e. Keeps-send_main_menu v ctx)

    Keeps-start_in : (ctx : Context) (c : Option ChatInfo) → Keeps P (start_in v ctx c)
    Keeps-start_in ctx none = Keeps-pure tt
    Keeps-start_in ctx (some c) = Keeps-start_args ctx c (second ctx.args)

    pub Keeps-start : (ctx : Context) → Keeps P (start v ctx)
    unfolding start
    Keeps-start ctx = Keeps-start_in ctx ctx.effective_chat
