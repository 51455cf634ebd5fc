-- ===== src/Telegram/Wizard/Tenants.antt =====
-- The wizard of internal/telegram/handlers.go and the ownership of rows in internal/storage.
use hyprbot.Telegram.Wizard.Dialogue.{
  finish_wizard, perform, loaded, private_in, private_text, begin_wizard,
}
use hyprbot.Telegram.Wizard.{Move, ignore, say, advance, finish}
use hyprbot.Telegram.Admin.Tenants.{Owns, Owns_apart}
use hyprbot.Telegram.Apart.{Keeps-reply, Keeps-audit}
use hyprbot.Telegram.Apart.Dialogues.{
  Keeps-set_wizard, Keeps-get_wizard, Keeps-clear_wizard, Keeps-begin_wizard,
}
use hyprbot.System.Apart.{Keeps-execute, Keeps-query}
use hyprbot.Telegram.Service.{Service, WizardState}
use hyprbot.Telegram.Context.{Context, ChatInfo, Incoming, is_private}
use hyprbot.Storage.Ownership.{IsOwned}
use hyprbot.Storage.Ownership.Inserted.{insert_provider_row-IsOwned}
use hyprbot.Storage.Tables.{ProviderInstance}
use hyprbot.Storage.Store
use hyprbot.System.{World}
use hyprbot.System.Keeps.{Keeps, Keeps-attempt, Keeps-bind, Keeps-pure, Keeps-if, Keeps-lift}
use hyprbot.Strings.{trim_space, has_prefix}
use hyprbot.Redis.{Redis}
use hyprbot.Prelude.{
  text, is_empty, ◌||◌, not, err, ok, none, ℕ, Text, List, Result, some, ℤ, Option,
}

Keeps-upsert_provider :
    {R : Redis} (p : ProviderInstance) → Keeps (Owns {R = R}) (Store.upsert_provider_instance p)
unfolding Store.upsert_provider_instance Store.get_provider_instance_id
Keeps-upsert_provider p =
    Keeps-bind _ _ (Keeps-execute _ _ (λ s h. insert_provider_row-IsOwned s.clock _ s.db h))
      (λ _. Keeps-bind _ _ (Keeps-query _ _) (λ r. Keeps-pure _))

module _ (v : Service) {R : Redis} where
  module _ (r₁ r₂ : Option (List ℕ)) where
    Keeps-finish_wizard :
        (u : ℤ) (st : WizardState) (key : Text)
        → Keeps (Owns {R = R}) (finish_wizard v r₁ r₂ u st key)
    unfolding finish_wizard
    Keeps-finish_wizard u st key = Keeps-bind _ _ (Keeps-lift _) (λ a.
        Keeps-bind _ _ (Keeps-lift _)
          (λ b. Keeps-bind _ _ (Keeps-upsert_provider _) (λ c. Keeps-audit v _ _ _ _)))

    Keeps-perform :
        (ctx : Context) (u : ℤ) (st : WizardState) (m : Move)
        → Keeps (Owns {R = R}) (perform v r₁ r₂ ctx u st m)
    Keeps-perform ctx u st ignore = Keeps-pure tt
    Keeps-perform ctx u st (say t) = Keeps-reply ctx t
    Keeps-perform ctx u st (advance st' t) =
        Keeps-bind _ _ (Keeps-attempt _ (Keeps-set_wizard v u st'))
          (elim [ ok x ↦ Keeps-reply ctx _ | err e ↦ Keeps-reply ctx _ ])
    Keeps-perform ctx u st (finish key) =
        Keeps-bind _ _ (Keeps-attempt _ (Keeps-finish_wizard u st key)) (elim [
          | ok x ↦ Keeps-bind _ _ (Keeps-attempt _ (Keeps-clear_wizard u)) (λ _. Keeps-reply ctx _)
          | err e ↦ Keeps-reply ctx _
        ])

    Keeps-loaded :
        (ctx : Context) (u : ℤ) (t : Text) (r : Result (Option WizardState))
        → Keeps (Owns {R = R}) (loaded v r₁ r₂ ctx u t r)
    Keeps-loaded ctx u t (err e) = Keeps-reply ctx _
    Keeps-loaded ctx u t (ok none) = Keeps-pure tt
    Keeps-loaded ctx u t (ok (some st)) = Keeps-perform ctx u st _

    Keeps-private_in :
        (ctx : Context) (c : Option ChatInfo) (u : Option ℤ) (m : Option Incoming)
        → Keeps (Owns {R = R}) (private_in v r₁ r₂ ctx c u m)
    Keeps-private_in ctx none u m = Keeps-pure tt
    Keeps-private_in ctx (some c) none m = Keeps-pure tt
    Keeps-private_in ctx (some c) (some u) none = Keeps-pure tt
    Keeps-private_in ctx (some c) (some u) (some msg) =
        Keeps-if
          (not (is_private c)
            || is_empty (trim_space msg.text)
            || has_prefix (trim_space msg.text) (text "/"))
          _ _ (λ e. Keeps-pure tt)
          (λ e.
            Keeps-bind _ _ (Keeps-attempt _ (Keeps-get_wizard v u))
              (λ r. Keeps-loaded ctx u (trim_space msg.text) r))

pub Keeps-private_text :
    {R : Redis} (v : Service) (r₁ r₂ : Option (List ℕ)) (ctx : Context)
    → Keeps (Owns {R = R}) (private_text v r₁ r₂ ctx)
unfolding private_text
Keeps-private_text v r₁ r₂ ctx =
    Keeps-private_in v r₁ r₂ ctx ctx.effective_chat ctx.effective_user ctx.effective_message

-- The texts of a wizard and its beginning keep every preset with a provider of its own chat,
-- whoever sends them and whichever calls fail.
pub private_text-IsOwned :
    {R : Redis} (v : Service) (r₁ r₂ : Option (List ℕ)) (ctx : Context) (target : ℤ) (w : World R)
    → IsOwned w.sys.db
    → IsOwned (private_text v r₁ r₂ ctx w).1.sys.db × IsOwned (begin_wizard v ctx target w).1.sys.db
private_text-IsOwned v r₁ r₂ ctx target w h =
    ((Keeps-private_text v r₁ r₂ ctx).at w h, (Keeps-begin_wizard {P = Owns} v ctx target).at w h)
