-- ===== src/Entry.antt =====
-- cmd/bot/main.go: what is started for a configuration, and what sanitizeTelegramErr makes of an error.
pub mod Modes
pub mod Secrecy
use hyprbot.Bot.{Bot}
use hyprbot.Worker.{Worker, new_worker}
use hyprbot.Telegram.Service.{Service, new_service}
use hyprbot.Telegram.Dispatch.{Library}
use hyprbot.Config.Load.{Config, access_private, mode_all, mode_webhook, mode_worker}
use hyprbot.Telegram.Processor.{Processor}
use hyprbot.Strings.{trim_space, trim_slashes, to_lower, is_blank, replace_all, cut}
use hyprbot.Config.{strip_suffix, or_same}
use hyprbot.Prelude.{
  clamped, ◌∷◌, negsuc, text_has_eq, is_empty, pos, none, ◌++◌, not, ℕ, [], if◌then◌else◌, text,
  ◌&&◌, ◌||◌, true, ◌==◌, ℤ, Text, some, Option, Bool,
}

-- runPolling
unfoldable pub run_polling : Config → Bool
run_polling c = c.dev_polling && not (c.app_mode == mode_worker)

-- runWebhook
unfoldable pub run_webhook : Config → Bool
unfolding run_polling
run_webhook c = not (run_polling c) && (c.app_mode == mode_webhook || c.app_mode == mode_all)

-- runIngress
unfoldable pub run_ingress : Config → Bool
unfolding run_polling run_webhook
run_ingress c = run_polling c || run_webhook c

-- The condition under which `main` starts the worker.
unfoldable pub run_worker : Config → Bool
run_worker c = c.app_mode == mode_worker || c.app_mode == mode_all

-- allowedUserID
unfoldable pub allowed_user_id : Config → ℤ
allowed_user_id c = if c.bot_access_mode == access_private then c.admin_user_id else pos 0

-- The processor of the dispatcher.
unfoldable pub processor_of : Config → Processor
unfolding allowed_user_id
processor_of c = record {
  dedupe = some c.redis.update_ttl;
  has_metrics = true;
  allowed_user_id = allowed_user_id c;
}

-- The service, over what the configuration does not say. A limit below 0 lets nothing through, as 0 does.
unfoldable pub service_of : Service → Config → Service
service_of s c =
    new_service
      (record s {
        rate_limit = some (clamped c.per_hour);
        access_mode = c.bot_access_mode;
        admin_user_id = c.admin_user_id;
      })
      c.redis.admin_cache_ttl c.redis.wizard_ttl

-- The worker, over what the configuration does not say.
unfoldable pub worker_of : Worker → Config → Worker
worker_of w c =
    new_worker (record w { provider_retries = c.http.max_retries }) c.http.backoff_base
      c.worker.max_retries

-- The bot that `main` puts together.
unfoldable pub bot_of : Library → Service → Worker → Config → Bot
unfolding processor_of service_of worker_of
bot_of l s w c = record {
  library = l;
  service = service_of s c;
  processor = processor_of c;
  worker = worker_of w c;
}

-- The path that the webhook is served under.
unfoldable pub webhook_path : Config → Text
webhook_path c =
    let path = trim_slashes c.webhook.secret_path in if is_empty path then text "telegram" else path

-- webhookURL, or `none` where `main` stops.
unfoldable pub webhook_url : Config → Option Text
unfolding webhook_path
webhook_url c =
    if is_empty c.webhook.public_url
    then none
    else some (
        or_same c.webhook.public_url (strip_suffix (text "/") c.webhook.public_url)
        ++ b'/' ∷ webhook_path c)

pub data LogLevel : Type 0 where
  debug info warn error : LogLevel

-- `parseLogLevel`
unfoldable pub parse_log_level : Text → LogLevel
parse_log_level level =
    let l = to_lower (trim_space level) in
    if l == text "debug"
    then debug
    else if l == text "warn" || l == text "warning"
    then warn
    else if l == text "error"
    then error
    else info

-- Behind `strings.Index(token, ":")`, with what stands before the colon.
unfoldable pub redact_id : Text → Text → Text
redact_id id msg =
    let once = replace_all (text "/bot" ++ (id ++ text ":")) (text "/bot<redacted>:") msg in
    replace_all (text "bot" ++ (id ++ text "/")) (text "bot<redacted>/") once

abbrev pub redact_parts : Text → Option (Text × Text) → Text
redact_parts msg none = msg
redact_parts msg (some (id, rest)) = if is_empty id then msg else redact_id id msg

-- `sanitizeTelegramErr` of an error's text, or of nil.
unfoldable pub sanitize_telegram_err : Option Text → Text → Text
unfolding redact_id
sanitize_telegram_err none token = []
sanitize_telegram_err (some msg) token =
    if is_blank token
    then msg
    else redact_parts (replace_all token (text "<redacted-token>") msg) (cut b':' token)
