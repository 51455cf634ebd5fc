-- ===== src/Examples/Telegram.antt =====
-- The theorems on internal/telegram, applied.
use hyprbot.Telegram.Context.{Context, ChatInfo, Incoming}
use hyprbot.Telegram.Service.{Service, is_admin_status, allow_rate, user_id}
use hyprbot.Telegram.Processor.{Processor, process_update, admits}
use hyprbot.Telegram.Processor.Laws.{
  process_update_refused, process_update_again, process_update_fresh, count_if,
}
use hyprbot.Telegram.Admin.{ai_preset_add, ai_preset_del, ai_default, llm_del}
use hyprbot.Telegram.Admin.Rights.{Spares, only_admins}
use hyprbot.Telegram.Ask.{ask, job_of}
use hyprbot.Telegram.Ask.Jobs.{ask_enqueues, Asked}
use hyprbot.Telegram.Commands.{command_remainder}
use hyprbot.Queue.Dedupe.{expiry, update_key}
use hyprbot.Strings.{trim_space}
use hyprbot.Redis.Memory.{memory, memory-IsLawful, empty_server}
use hyprbot.Redis.Commands.{View}
use hyprbot.System.{unanswered, World, Exec, lost, done, pure}
use hyprbot.Examples.Libraries.{plain_aead, envelope_codec, job_codec, wizard_codec}
use hyprbot.Examples.States.{running}
use hyprbot.Prelude.{
  text_has_eq, refl, none, arith, false, ◌==◌, text_eq, beq_self, ok, true, some, [], ◌∷◌, ◌≡◌,
  text, pos, if◌then◌else◌, is_empty,
}

abbrev pub service : Service
service = record {
  aead = plain_aead;
  envelope_json = envelope_codec;
  job_json = job_codec;
  wizard_json = wizard_codec;
  marshal_meta = λ m. text "{}";
  marshal_config = λ m. text "{}";
  is_json = λ t. true;
  is_headers_json = λ t. true;
  query_escape = λ t. t;
  format_clock = λ n. text "12:00:00";
  hour_label = λ n. n ∷ [];
  member_status = λ c u. [];
  crypto = record { current_key_id = text "a"; keys = [] };
  rate_limit = none;
  admin_cache_ttl = 600000000000;
  wizard_ttl = 900000000000;
  bot_username = text "hyprbot";
  own_username = text "hyprbot";
  access_mode = text "public";
  admin_user_id = pos 0;
  edit_refusal = λ c m t k. none;
}

abbrev pub group : ChatInfo
group = record { id = pos 5; kind = text "group"; title = text "team" }

abbrev pub asked : Incoming
asked = record { message_id = pos 9; text = 47 ∷ 97 ∷ 32 ∷ 98 ∷ []; chat = group }

abbrev pub update : Context
update = record {
  update_id = pos 3;
  effective_chat = some group;
  effective_user = some (pos 7);
  effective_message = some asked;
  callback_query = none;
  args = [];
}

abbrev pub calm : World memory
calm = record { sys = running empty_server 0; fates = [] }

no_admin : is_admin_status [] ≡ false
unfolding is_admin_status text text_eq
no_admin = refl

only_admins_example :
    Spares calm (ai_preset_add service update)
    × Spares calm (ai_preset_del service update)
    × Spares calm (ai_default service update)
    × Spares calm (llm_del service update)
only_admins_example =
    only_admins service update group (pos 7) calm refl refl (λ e. absurd (ground arith)) no_admin

remainder : is_empty (trim_space (command_remainder asked.text)) ≡ false
unfolding trim_space command_remainder hyprbot.Strings.cut
remainder = refl

abbrev limited_service : Service
limited_service = record service { rate_limit = some 30 }

let_through : (allow_rate limited_service (pos 5) (user_id update) update calm).0 ≡ ok true
unfolding allow_rate hyprbot.Queue.RateLimiter.allow hyprbot.System.◌>>=◌ hyprbot.System.call
    hyprbot.System.attempt hyprbot.System.gets hyprbot.System.pure user_id
    hyprbot.Queue.RateLimiter.incr_with_ttl hyprbot.Queue.RateLimiter.ttl
let_through = refl

ask_enqueues_example :
    Asked limited_service
      (text "n")
      (job_of update group asked [] (trim_space (command_remainder asked.text)))
      true
      (running empty_server 0)
      (ask limited_service (text "n") update calm).1.sys
ask_enqueues_example =
    ask_enqueues memory-IsLawful limited_service (text "n") update group asked
      (running empty_server 0) true refl refl remainder let_through

abbrev pub private_mode : Processor
private_mode = record { dedupe = some (pos 100); has_metrics = true; allowed_user_id = pos 8 }

abbrev public_mode : Processor
public_mode = record { dedupe = some (pos 100); has_metrics = true; allowed_user_id = pos 0 }

abbrev pub base : Exec memory (Unit {0})
base = pure tt

let_in : admits public_mode update ≡ true
unfolding admits
let_in = refl

process_update_refused_example :
    process_update base private_mode update calm
    ≡ (ok tt, record calm { sys = count_if true calm.sys })
process_update_refused_example =
    process_update_refused base private_mode update calm refl (λ e. absurd (ground arith))

abbrev marked : View
marked = record empty_server {
  cells = λ k.
      if k == update_key (pos 3)
      then some (record { value = text "1"; deadline = some 100 })
      else none;
}

marked_lem :
    marked.cells (update_key (pos 3)) ≡ some (record { value = text "1"; deadline = some 100 })
marked_lem = rw (beq_self (update_key (pos 3))) refl

process_update_again_example :
    (redis : View) × (process_update base public_mode update
        (record { sys = running marked 60; fates = done ∷ [] })
      ≡ (
        ok tt,
        record { sys = record (count_if true (running marked 60)) { redis = redis }; fates = [] },
      ))
    × (redis ≡ marked)
process_update_again_example =
    process_update_again base public_mode update memory-IsLawful let_in 100 (running marked 60) []
      (record { value = text "1"; deadline = some 100 }) refl (rw marked_lem refl)

-- The answer to the call is lost.
process_update_fresh_example :
    (redis : View) × (process_update base public_mode update
        (record { sys = running empty_server 60; fates = unanswered ∷ [] })
      ≡ base (record {
        sys = record (count_if true (running empty_server 60)) { redis = redis };
        fates = [];
      }))
    × (redis.cells (update_key (pos 3)) ≡ some (record { value = text "1"; deadline = some 160 }))
unfolding expiry
process_update_fresh_example =
    process_update_fresh base public_mode update memory-IsLawful let_in (pos 100)
      (running empty_server 60) unanswered [] refl refl
