-- ===== src/Telegram/Apart/Questions.antt =====
-- `ask` and `ai` of internal/telegram/handlers.go, and what they leave alone.
use hyprbot.Telegram.Apart.{Keeps-reply, Keeps-ensure_chat_of}
use hyprbot.Telegram.Service.{limited, rate_verdict, Service, allow_rate}
use hyprbot.Telegram.Ask.{ai_in, ask_in, ai_words, ask, ai, submit, enqueued}
use hyprbot.Telegram.Context.{Incoming, Context, ChatInfo}
use hyprbot.Queue.RateLimiter.{Verdict, allow}
use hyprbot.Queue.Stream.{enqueue, AskJob}
use hyprbot.Encoding.Json.{Codec}
use hyprbot.System.Apart.{IsApart, Keeps-call_redis}
use hyprbot.System.Keeps.{
  Keeps, Keeps-call, Keeps-attempt, Keeps-bind, Keeps-pure, Keeps-raise, Keeps-if, Keeps-gets,
  Keeps-modify,
}
use hyprbot.System.{Sys}
use hyprbot.Redis.{Redis}
use hyprbot.Prelude.{
  int_has_eq, pos, none, ◌==◌, ◌||◌, some, is_empty, Option, false, ok, true, err, ℤ, ℕ, Result,
  Text,
}
use hyprbot.Strings.{trim_space}
use hyprbot.Telegram.Commands.{command_remainder}

module _ {R : Redis} {P : Sys R → Type 0} ⦃a : IsApart P⦄ where
  pub Keeps-enqueue :
      (json : Codec AskJob) (new_id : Text) (job : AskJob)
      → Keeps P (enqueue json {R = R} new_id job)
  unfolding enqueue
  Keeps-enqueue json new_id job = Keeps-call _ _ (λ s h. a.outside s _ _ _ _ _ h)

  Keeps-allow :
      (label : ℕ → Text) (limit : ℕ) (c u : ℤ) (now : ℕ) → Keeps P (allow label R limit c u now)
  unfolding allow
  Keeps-allow label limit c u now =
      Keeps-bind _ _ (Keeps-call_redis _ _) (elim [ none ↦ Keeps-raise _ | some n ↦ Keeps-pure _ ])

  module _ (v : Service) where
    Keeps-rate_verdict : (ctx : Context) (r : Result Verdict) → Keeps P (rate_verdict v ctx r)
    Keeps-rate_verdict ctx (err e) = Keeps-pure true
    Keeps-rate_verdict ctx (ok x) =
        Keeps-if x.allowed _ _ (λ e. Keeps-pure true)
          (λ e. Keeps-bind _ _ (Keeps-attempt _ (Keeps-reply ctx _)) (λ r. Keeps-pure false))

    Keeps-limited : (o : Option ℕ) (c u : ℤ) (ctx : Context) → Keeps P (limited v o c u ctx)
    Keeps-limited none c u ctx = Keeps-pure true
    Keeps-limited (some limit) c u ctx =
        Keeps-if (u == pos 0) _ _ (λ e. Keeps-pure true)
          (λ e. Keeps-bind _ _ (Keeps-gets _) (λ now.
            Keeps-bind _ _ (Keeps-attempt _ (Keeps-allow v.hour_label limit c u now))
              (λ r. Keeps-rate_verdict ctx r)))

    Keeps-allow_rate : (c u : ℤ) (ctx : Context) → Keeps P (allow_rate v c u ctx)
    unfolding allow_rate
    Keeps-allow_rate c u ctx = Keeps-limited v.rate_limit c u ctx

    module _ (new_id : Text) where
      Keeps-enqueued : (ctx : Context) (r : Result ℕ) → Keeps P (enqueued v new_id ctx r)
      Keeps-enqueued ctx (err e) = Keeps-reply ctx _
      Keeps-enqueued ctx (ok n) =
          Keeps-bind _ _ (Keeps-modify _ (λ s h. a.outside s _ _ _ _ _ h)) (λ x. Keeps-reply ctx _)

      Keeps-submit :
          (ctx : Context) (chat : ChatInfo) (m : Incoming) (p q : Text)
          → Keeps P (submit v new_id ctx chat m p q)
      unfolding submit
      Keeps-submit ctx chat m p q = Keeps-bind _ _ (Keeps-allow_rate _ _ ctx) (λ b.
          Keeps-if b _ _
            (λ e. Keeps-bind _ _ (Keeps-ensure_chat_of m) (λ x.
              Keeps-bind _ _ (Keeps-attempt _ (Keeps-enqueue _ _ _)) (λ r. Keeps-enqueued ctx r)))
            (λ e. Keeps-pure tt))

      Keeps-ask_in :
          (ctx : Context) (m : Option Incoming) (c : Option ChatInfo)
          → Keeps P (ask_in v new_id ctx m c)
      Keeps-ask_in ctx none c = Keeps-pure tt
      Keeps-ask_in ctx (some m) none = Keeps-pure tt
      Keeps-ask_in ctx (some m) (some c) =
          Keeps-if (is_empty (trim_space (command_remainder m.text))) _ _ (λ e. Keeps-reply ctx _)
            (λ e. Keeps-submit ctx c m _ _)

      pub Keeps-ask : (ctx : Context) → Keeps P (ask v new_id ctx)
      unfolding ask
      Keeps-ask ctx = Keeps-ask_in ctx ctx.effective_message ctx.effective_chat

      Keeps-ai_words :
          (ctx : Context) (c : ChatInfo) (m : Incoming) (ws : Text × Text)
          → Keeps P (ai_words v new_id ctx c m ws)
      Keeps-ai_words ctx c m (p, q) =
          Keeps-if (is_empty p || is_empty q) _ _ (λ e. Keeps-reply ctx _)
            (λ e. Keeps-submit ctx c m p q)

      Keeps-ai_in :
          (ctx : Context) (m : Option Incoming) (c : Option ChatInfo)
          → Keeps P (ai_in v new_id ctx m c)
      Keeps-ai_in ctx none c = Keeps-pure tt
      Keeps-ai_in ctx (some m) none = Keeps-pure tt
      Keeps-ai_in ctx (some m) (some c) = Keeps-ai_words ctx c m _

      pub Keeps-ai : (ctx : Context) → Keeps P (ai v new_id ctx)
      unfolding ai
      Keeps-ai ctx = Keeps-ai_in ctx ctx.effective_message ctx.effective_chat
