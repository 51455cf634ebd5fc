-- ===== src/Telegram/Apart/Menus.antt =====
-- The lists of internal/telegram/handlers.go, the menu of ui.go and the buttons of callbacks.go, and what
-- they leave alone.
use hyprbot.Telegram.Apart.{
  Keeps-send_message, Keeps-reply, Keeps-ensure_chat_of, Keeps-require_admin,
}
use hyprbot.Telegram.Service.{Service}
use hyprbot.Telegram.Lists.{
  ai_list, ai_list_in, presets_listed, llm_add, llm_add_in, llm_add_as, linked, ensure_of, llm_list,
  llm_list_as, providers_listed,
}
use hyprbot.Telegram.Context.{Incoming, Context, ChatInfo, is_private}
use hyprbot.Storage.Tables.{Preset, ProviderInstance}
use hyprbot.System.Apart.{IsApart, Keeps-list_presets, Keeps-list_providers, Keeps-get_default}
use hyprbot.System.Keeps.{Keeps, Keeps-attempt, Keeps-bind, Keeps-pure, Keeps-if}
use hyprbot.System.{Sys}
use hyprbot.Redis.{Redis}
use hyprbot.Prelude.{[], ◌∷◌, ok, none, err, is_empty, List, some, ℤ, Result, Option, Text}

module _ {R : Redis} {P : Sys R → Type 0} ⦃a : IsApart P⦄ where
  Keeps-presets_listed :
      (ctx : Context) (c : ℤ) (r : Result (List Preset)) → Keeps P (presets_listed ctx c r)
  Keeps-presets_listed ctx c (err e) = Keeps-reply ctx _
  Keeps-presets_listed ctx c (ok []) = Keeps-reply ctx _
  Keeps-presets_listed ctx c (ok (p ∷ ps)) =
      Keeps-bind _ _ (Keeps-attempt _ (Keeps-get_default c)) (λ r. Keeps-reply ctx _)

  Keeps-ai_list_in : (ctx : Context) (c : Option ChatInfo) → Keeps P (ai_list_in ctx c)
  Keeps-ai_list_in ctx none = Keeps-pure tt
  Keeps-ai_list_in ctx (some c) =
      Keeps-bind _ _ (Keeps-attempt _ (Keeps-list_presets c.id))
        (λ r. Keeps-presets_listed ctx c.id r)

  pub Keeps-ai_list : (ctx : Context) → Keeps P (ai_list ctx)
  unfolding ai_list
  Keeps-ai_list ctx = Keeps-ai_list_in ctx ctx.effective_chat

  Keeps-providers_listed :
      (ctx : Context) (r : Result (List ProviderInstance)) → Keeps P (providers_listed ctx r)
  Keeps-providers_listed ctx (err e) = Keeps-reply ctx _
  Keeps-providers_listed ctx (ok []) = Keeps-reply ctx _
  Keeps-providers_listed ctx (ok (p ∷ ps)) = Keeps-reply ctx _

  Keeps-llm_list_as : (ctx : Context) (o : Option (ℤ × ℤ)) → Keeps P (llm_list_as ctx o)
  Keeps-llm_list_as ctx none = Keeps-pure tt
  Keeps-llm_list_as ctx (some (c, u)) =
      Keeps-bind _ _ (Keeps-attempt _ (Keeps-list_providers c)) (λ r. Keeps-providers_listed ctx r)

  module _ (v : Service) where
    pub Keeps-llm_list : (ctx : Context) → Keeps P (llm_list ctx v)
    unfolding llm_list
    Keeps-llm_list ctx = Keeps-bind _ _ (Keeps-require_admin v ctx) (λ o. Keeps-llm_list_as ctx o)

    Keeps-linked : (ctx : Context) (c : ChatInfo) (t : Text) → Keeps P (linked ctx v c t)
    Keeps-linked ctx c t =
        Keeps-if (is_empty t) _ _ (λ e. Keeps-reply ctx _) (λ e. Keeps-send_message _ _ _)

    Keeps-ensure_of : (ctx : Context) (m : Option Incoming) → Keeps P (ensure_of ctx v m)
    Keeps-ensure_of ctx none = Keeps-pure tt
    Keeps-ensure_of ctx (some m) = Keeps-ensure_chat_of m

    Keeps-llm_add_as :
        (ctx : Context) (c : ChatInfo) (o : Option (ℤ × ℤ)) → Keeps P (llm_add_as ctx v c o)
    Keeps-llm_add_as ctx c none = Keeps-pure tt
    Keeps-llm_add_as ctx c (some (i, u)) =
        Keeps-bind _ _ (Keeps-ensure_of ctx ctx.effective_message) (λ x. Keeps-linked ctx c _)

    Keeps-llm_add_in :
        (ctx : Context) (c : Option ChatInfo) (u : Option ℤ) → Keeps P (llm_add_in ctx v c u)
    Keeps-llm_add_in ctx none u = Keeps-pure tt
    Keeps-llm_add_in ctx (some c) none = Keeps-pure tt
    Keeps-llm_add_in ctx (some c) (some u) =
        Keeps-if (is_private c) _ _ (λ e. Keeps-reply ctx _)
          (λ e. Keeps-bind _ _ (Keeps-require_admin v ctx) (λ o. Keeps-llm_add_as ctx c o))

    pub Keeps-llm_add : (ctx : Context) → Keeps P (llm_add ctx v)
    unfolding llm_add
    Keeps-llm_add ctx = Keeps-llm_add_in ctx ctx.effective_chat ctx.effective_user
