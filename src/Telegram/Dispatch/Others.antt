-- ===== src/Telegram/Dispatch/Others.antt =====
-- What the handlers that `Register` of internal/telegram/service.go knows do for a user without rights.
use hyprbot.Telegram.Dispatch.{Library, dispatch, dispatch_cases, commands, is_private_text}
use hyprbot.Telegram.Admin.Rights.{only_admins, Spares}
use hyprbot.Telegram.Admin.{ai_preset_add, ai_preset_del, ai_default, llm_del}
use hyprbot.Telegram.Apart.Buttons.{
  Keeps-send_main_menu, Keeps-setup, Keeps-status, Keeps-on_callback,
}
use hyprbot.Telegram.Apart.Dialogues.{Keeps-start, Keeps-cancel_wizard}
use hyprbot.Telegram.Apart.Menus.{Keeps-ai_list, Keeps-llm_add, Keeps-llm_list}
use hyprbot.Telegram.Apart.Questions.{Keeps-ask, Keeps-ai}
use hyprbot.Telegram.Menu.{menu, help}
use hyprbot.Telegram.Context.{Context, ChatInfo}
use hyprbot.Telegram.Service.{Service, admin_key, is_admin_status}
use hyprbot.Storage.Tables.{Db, Preset, ProviderInstance}
use hyprbot.System.{Exec, Sys, World}
use hyprbot.System.Apart.{IsApart}
use hyprbot.System.Keeps.{Keeps, Keeps-pure}
use hyprbot.Redis.{Redis}
use hyprbot.Prelude.{refl, arith, false, text, ◌≢◌, some, ℤ, ℕ, Option, List, ◌≡◌, Text}

-- The providers and the presets of all chats.
abbrev pub Configured : Type 0
Configured = List ProviderInstance × List Preset

abbrev pub configured : Db → Configured
configured db = (db.providers, db.presets)

abbrev Untouched : {R : Redis} → Configured → Sys R → Type 0
Untouched c s = configured s.db ≡ c

instance Untouched_apart : {R : Redis} {c : Configured} → IsApart (Untouched {R = R} c)
Untouched_apart = record {
  outside = λ s redis outbox edits answers metrics h. h;
  tables = λ s cs rs es h. h;
}

record Leaves {R : Redis} (w : World R) (m : Exec R (Unit {0})) : Type 0 where
  same : configured (m w).1.sys.db ≡ configured w.sys.db

module _ {R : Redis} (w : World R) where
  of_Keeps : {m : Exec R (Unit {0})} → Keeps (Untouched (configured w.sys.db)) m → Leaves w m
  of_Keeps k = record { same = k.at w refl }

  of_Spares : (m : Exec R (Unit {0})) → Spares w m → Leaves w m
  of_Spares m e = record { same = ground arith }

-- For a user who is no administrator of the chat by Telegram's word, and for whom Redis holds no
-- "1", an update that is no text of a private chat leaves all providers and presets as they are,
-- whichever command or button it is and whichever calls fail.
pub dispatch_others :
    {R : Redis} (v : Service) (new_id : Text) (r₁ r₂ : Option (List ℕ)) (ctx : Context)
    (l : Library) (chat : ChatInfo) (u : ℤ) (w : World R)
    → ctx.effective_chat ≡ some chat
    → ctx.effective_user ≡ some u
    → R.get w.sys.redis w.sys.clock (admin_key chat.id u) ≢ some (text "1")
    → is_admin_status (v.member_status chat.id u) ≡ false
    → is_private_text l ctx ≡ false
    → configured (dispatch v new_id r₁ r₂ ctx l w).1.sys.db ≡ configured w.sys.db
unfolding commands menu help
dispatch_others {R} v new_id r₁ r₂ ctx l chat u w here who cold plain no_text =
    let (add, del, def, llm) = only_admins v ctx chat u w here who cold plain in
    let all =
      dispatch_cases {R = R} (λ m. Leaves w m) v new_id r₁ r₂ ctx l
        (search (
          of_Spares w (ai_preset_add v ctx) add,
          of_Spares w (ai_preset_del v ctx) del,
          of_Spares w (ai_default v ctx) def,
          of_Spares w (llm_del v ctx) llm,
          of_Keeps w (Keeps-send_main_menu v ctx),
          of_Keeps w (Keeps-start v ctx),
          of_Keeps w (Keeps-setup v ctx),
          of_Keeps w (Keeps-status v ctx),
          of_Keeps w (Keeps-cancel_wizard ctx),
          of_Keeps w (Keeps-ask v new_id ctx),
          of_Keeps w (Keeps-ai v new_id ctx),
          of_Keeps w (Keeps-ai_list ctx),
          of_Keeps w (Keeps-llm_add v ctx),
          of_Keeps w (Keeps-llm_list v ctx),
        ))
        (of_Keeps w (Keeps-on_callback v ctx)) (λ e. absurd (cc)) (of_Keeps w (Keeps-pure tt)) in
    all.same
