-- ===== src/Telegram/Dispatch/Tenants.antt =====
-- Every handler that `Register` of internal/telegram/service.go knows, and the ownership of rows.
use hyprbot.Telegram.Dispatch.{Library, dispatch, dispatch_cases, commands}
use hyprbot.Telegram.Admin.Tenants.{Owns, Owns_apart}
use hyprbot.Telegram.Admin.Tenants.Handlers.{
  Keeps-ai_preset_add, Keeps-ai_preset_del, Keeps-ai_default, Keeps-llm_del,
}
use hyprbot.Telegram.Apart.Buttons.{
  Keeps-send_main_menu, Keeps-setup, Keeps-status, Keeps-on_callback,
}
use hyprbot.Telegram.Apart.Dialogues.{Keeps-start, Keeps-cancel_wizard}
use hyprbot.Telegram.Apart.Menus.{Keeps-ai_list, Keeps-llm_add, Keeps-llm_list}
use hyprbot.Telegram.Apart.Questions.{Keeps-ask, Keeps-ai}
use hyprbot.Telegram.Wizard.Tenants.{Keeps-private_text}
use hyprbot.Telegram.Menu.{menu, help}
use hyprbot.Telegram.Context.{Context}
use hyprbot.Telegram.Service.{Service}
use hyprbot.System.Keeps.{Keeps, Keeps-pure}
use hyprbot.Redis.{Redis}
use hyprbot.Prelude.{ℕ, List, Option, Text}

pub Keeps-dispatch :
    {R : Redis} (v : Service) (new_id : Text) (r₁ r₂ : Option (List ℕ)) (ctx : Context)
    (l : Library)
    → Keeps (Owns {R = R}) (dispatch v new_id r₁ r₂ ctx l)
unfolding commands menu help
Keeps-dispatch {R} v new_id r₁ r₂ ctx l =
    dispatch_cases {R = R} (λ m. Keeps Owns m) v new_id r₁ r₂ ctx l
      (search (
        Keeps-send_main_menu v ctx,
        Keeps-start v ctx,
        Keeps-setup v ctx,
        Keeps-status v ctx,
        Keeps-cancel_wizard ctx,
        Keeps-ask v new_id ctx,
        Keeps-ai v new_id ctx,
        Keeps-ai_list ctx,
        Keeps-ai_preset_add v ctx,
        Keeps-ai_preset_del v ctx,
        Keeps-ai_default v ctx,
        Keeps-llm_add v ctx,
        Keeps-llm_list v ctx,
        Keeps-llm_del v ctx,
      ))
      (Keeps-on_callback v ctx) (λ e. Keeps-private_text v r₁ r₂ ctx) (Keeps-pure tt)
