-- ===== src/Entry/Modes.antt =====
-- What cmd/bot/main.go starts for a configuration that internal/config/config.go accepts.
use hyprbot.Entry.{
  run_polling, run_webhook, run_ingress, run_worker, allowed_user_id, processor_of, bot_of,
}
use hyprbot.Bot.{receive}
use hyprbot.Worker.{Worker}
use hyprbot.Telegram.Service.{Service}
use hyprbot.Telegram.Dispatch.{Library}
use hyprbot.Config.Load.{Config, access_private, mode_webhook, mode_worker}
use hyprbot.Config.Wellformed.{IsWellformed}
use hyprbot.Telegram.Processor.{process_update}
use hyprbot.Telegram.Processor.Laws.{count_if, process_update_refused}
use hyprbot.Telegram.Context.{Context}
use hyprbot.System.{Exec, World}
use hyprbot.Redis.{Redis}
use hyprbot.Prelude.{
  ℕ, List, Option, Text, text_has_eq, inr, inl, ◌||◌, false, ◌&&◌, true, ◌==◌, ok, text_eq_iff,
  some, not, text_eq, arith, ◌≢◌, ◌≡◌, text,
}

-- For a configuration that is accepted, updates are taken in exactly if the mode is not WORKER,
-- by polling or by the webhook but not by both, and a worker runs exactly if the mode is not
-- WEBHOOK; so something runs in every mode.
pub roles_started :
    (c : Config)
    → IsWellformed c
    → (run_ingress c ≡ not (c.app_mode == mode_worker))
      × (run_worker c ≡ not (c.app_mode == mode_webhook))
      × ((run_polling c && run_webhook c) ≡ false)
      × ((run_ingress c || run_worker c) ≡ true)
unfolding run_ingress run_webhook run_polling run_worker text text_eq
roles_started c v = elim v.mode [
  | inl e ↦ rw e (ground arith)
  | inr (inl e) ↦ rw e (ground arith)
  | inr (inr e) ↦ rw e (ground arith)
]

allowed_private :
    (c : Config) → c.bot_access_mode ≡ access_private → allowed_user_id c ≡ c.admin_user_id
unfolding allowed_user_id
allowed_private c e = ground (arith, text_eq_iff c.bot_access_mode access_private)

processor_refuses :
    {R : Redis} (base : Exec R (Unit {0})) (c : Config) (ctx : Context) (w : World R)
    → IsWellformed c
    → c.bot_access_mode ≡ access_private
    → ctx.effective_user ≢ some c.admin_user_id
    → process_update base (processor_of c) ctx w ≡ (ok tt, record w { sys = count_if true w.sys })
unfolding processor_of
processor_refuses base c ctx w v private stranger =
    let same = allowed_private c private in
    process_update_refused base (processor_of c) ctx w (rw same (v.admin private))
      (rw same stranger)

-- The bot that main puts together from an accepted configuration in private mode refuses every
-- update that is not the administrator's: no call of a handler is made, and all that changes is
-- the counter of updates.
pub private_bot_refuses :
    {R : Redis} (l : Library) (s : Service) (k : Worker) (c : Config) (new_id : Text)
    (r₁ r₂ : Option (List ℕ)) (ctx : Context) (w : World R)
    → IsWellformed c
    → c.bot_access_mode ≡ access_private
    → ctx.effective_user ≢ some c.admin_user_id
    → receive (bot_of l s k c) new_id r₁ r₂ ctx w ≡ (ok tt, record w { sys = count_if true w.sys })
unfolding receive bot_of
private_bot_refuses l s k c new_id r₁ r₂ ctx w v private stranger =
    processor_refuses _ c ctx w v private stranger
