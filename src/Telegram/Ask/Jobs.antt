-- ===== src/Telegram/Ask/Jobs.antt =====
-- `ask` of internal/telegram/handlers.go and `Enqueue` of internal/queue/stream.go: what reaches the
-- stream.
use hyprbot.Telegram.Ask.{ask, submit, job_of, ask_in, enqueued}
use hyprbot.Telegram.Ask.Limits.{Stays, Keeps-allow_rate, IsCalm-allow_rate}
use hyprbot.Telegram.Service.{Service, allow_rate, ensure_chat_of, reply, send_message, user_id}
use hyprbot.Telegram.Context.{Context, ChatInfo, Incoming}
use hyprbot.Telegram.Commands.{command_remainder}
use hyprbot.Queue.Delivery.{SameStream}
use hyprbot.Queue.Stream.{enqueue, stamp, AskJob}
use hyprbot.Storage.Store
use hyprbot.Redis.Commands
use hyprbot.Redis.Commands.{View}
use hyprbot.System.{◌>>=◌, ◌>>◌, pure, call, attempt, modify, lift, Sys, World, Exec, continue}
use hyprbot.System.Calm.{calm_world}
use hyprbot.Redis.{IsLawful, Redis}
use hyprbot.Prelude.{
  refl, Option, subst, sym, ◌+◌, [], false, true, Bool, ok, is_empty, some, ◌≡◌, Text,
  if◌then◌else◌, Result, ap,
}
use hyprbot.Strings.{trim_space}

-- The stream and the metric after a question: one entry more with the stamped job if the question
-- was let in, nothing more otherwise.
abbrev pub Asked :
    {R : Redis} → (v : Service) → (new_id : Text) → AskJob → Bool → Sys R → Sys R → Type 0
Asked {R} v new_id job allowed s s' =
    SameStream
      (if allowed
        then (Commands.xadd (R.view s.redis) (v.job_json.marshal (stamp new_id s.clock job))).0
        else R.view s.redis)
      (R.view s'.redis)
    × (s'.metrics.enqueued_jobs
        ≡ (if allowed then s.metrics.enqueued_jobs + 1 else s.metrics.enqueued_jobs))

module _ {R : Redis} (L : IsLawful R) (v : Service) (new_id : Text) (ctx : Context)
    (chat : ChatInfo) (msg : Incoming) (job : AskJob) (s₀ : Sys R) where
  -- What `submit` does once it knows whether the question is let in.
  abbrev submitted : Bool → Exec R (Unit {0})
  submitted allowed =
      if allowed
      then ensure_chat_of msg >> (attempt (enqueue v.job_json new_id job) >>= enqueued v new_id ctx)
      else pure tt

  submitted-Asked :
      (b : Bool) (s : Sys R)
      → ctx.effective_chat ≡ some chat
      → Stays s₀ s
      → Asked v new_id job b s₀ (submitted b (calm_world s)).1.sys
  unfolding ensure_chat_of Store.ensure_chat enqueue ◌>>=◌ pure call attempt modify lift reply
      send_message
  submitted-Asked false s c h = ((h.entries, h.last_id, h.group), h.counted)
  submitted-Asked true s c h =
      rw
        (
          c,
          L.view-xadd s.redis (v.job_json.marshal (stamp new_id s.clock job)),
          h.same_clock,
          ← h.entries,
          ← h.last_id,
          ← h.group,
          h.counted,
        )
        ((refl, refl, refl), refl)

  continued-Asked :
      (b : Bool) (r : Result Bool) (w : World R)
      → ctx.effective_chat ≡ some chat
      → r ≡ ok b
      → w.fates ≡ []
      → Stays s₀ w.sys
      → Asked v new_id job b s₀ (continue r submitted w).1.sys
  continued-Asked b r w c e f h =
      subst (λ w'. Asked v new_id job b s₀ (continue r submitted w').1.sys)
        (ap (λ fates. record { sys = w.sys; fates = fates }) (sym f))
        (rw e (submitted-Asked b w.sys c h))

ask_in-question :
    {R : Redis} (v : Service) (new_id : Text) (ctx : Context) (chat : ChatInfo) (msg : Incoming)
    (m : Option Incoming) (c : Option ChatInfo)
    → m ≡ some msg
    → c ≡ some chat
    → is_empty (trim_space (command_remainder msg.text)) ≡ false
    → ask_in v {R = R} new_id ctx m c
      ≡ submit v new_id ctx chat msg [] (trim_space (command_remainder msg.text))
ask_in-question v new_id ctx chat msg m c e e' q = rw (e, e', q) refl

-- Where every call succeeds, a question of a chat that the rate limit lets through becomes
-- exactly one new entry of the stream, which holds the stamped job with the trimmed question,
-- and the metric of enqueued jobs grows by one; a question that it does not let through leaves
-- the stream and the metric as they are.
pub ask_enqueues :
    {R : Redis} (L : IsLawful R) (v : Service) (new_id : Text) (ctx : Context) (chat : ChatInfo)
    (msg : Incoming) (s : Sys R) (allowed : Bool)
    → ctx.effective_message ≡ some msg
    → ctx.effective_chat ≡ some chat
    → is_empty (trim_space (command_remainder msg.text)) ≡ false
    → (allow_rate v chat.id (user_id ctx) ctx (calm_world s)).0 ≡ ok allowed
    → Asked v new_id
        (job_of ctx chat msg [] (trim_space (command_remainder msg.text)))
        allowed
        s
        (ask v new_id ctx (calm_world s)).1.sys
unfolding ask submit ◌>>=◌
ask_enqueues L v new_id ctx chat msg s allowed m c q e =
    let (r, w) = allow_rate v chat.id (user_id ctx) ctx (calm_world s) in
    let job = job_of ctx chat msg [] (trim_space (command_remainder msg.text)) in
    subst (λ n. Asked v new_id job allowed s (n (calm_world s)).1.sys)
      (sym (ask_in-question v new_id ctx chat msg ctx.effective_message ctx.effective_chat m c q))
      (continued-Asked L v new_id ctx chat msg job s allowed r w c e
        ((IsCalm-allow_rate v chat.id (user_id ctx) ctx).at s)
        ((Keeps-allow_rate L s v chat.id (user_id ctx) ctx).at (calm_world s) (record {
          entries = refl;
          last_id = refl;
          group = refl;
          counted = refl;
          same_clock = refl;
        })))
