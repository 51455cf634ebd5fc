-- ===== src/Worker/Loop/Calm.antt =====
-- `processJob` of internal/worker/worker.go makes no failure up: where no call fails, none is left to come.
use hyprbot.Worker.{Worker, process_job, send_error, send, resolve_preset, answer, resolved}
use hyprbot.Queue.Stream.{AskJob}
use hyprbot.System.Calm.{IsCalm, IsCalm-call, IsCalm-raise, calm_rules}
use hyprbot.Storage.Store.{get_preset_with_provider_by_name, get_default_preset_with_provider}
use hyprbot.Storage.Tables.{PresetWithProvider}
use hyprbot.Redis.{Redis}
use hyprbot.Prelude.{ok, err, not_found, failed, Result, Text, ℤ}

-- Processing makes no failure up.
module _ {R : Redis} (w : Worker) where
  IsCalm-resolve_preset :
      (chat_id : ℤ) (name : Text) → IsCalm {R = R} (resolve_preset w chat_id name)
  unfolding resolve_preset get_default_preset_with_provider get_preset_with_provider_by_name
  IsCalm-resolve_preset chat_id name = search (calm_rules)

  pub IsCalm-send_error : (a b : ℤ) (t : Text) → IsCalm {R = R} (send_error w a b t)
  unfolding send_error send
  IsCalm-send_error a b t = IsCalm-call _ _

  IsCalm-answer : (job : AskJob) (pp : PresetWithProvider) → IsCalm {R = R} (answer w job pp)
  unfolding answer send
  IsCalm-answer job pp = search (calm_rules) depth 14

  IsCalm-resolved :
      (job : AskJob) (found : Result PresetWithProvider) → IsCalm {R = R} (resolved w job found)
  IsCalm-resolved job (ok pp) = IsCalm-answer job pp
  IsCalm-resolved job (err not_found) = search (calm_rules, IsCalm-send_error)
  IsCalm-resolved job (err (failed e)) = IsCalm-raise (failed e)

  pub IsCalm-process_job : (job : AskJob) → IsCalm {R = R} (process_job w job)
  unfolding process_job
  IsCalm-process_job job = search (calm_rules, IsCalm-resolve_preset, IsCalm-resolved)
