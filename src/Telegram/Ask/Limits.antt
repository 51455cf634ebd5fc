-- ===== src/Telegram/Ask/Limits.antt =====
-- `allowRate` of internal/telegram/handlers.go and the stream of jobs.
use hyprbot.Telegram.Service.{
  Service, allow_rate, limited, rate_verdict, reply, reply_to_chat, send_message,
}
use hyprbot.Telegram.Context.{Context, ChatInfo}
use hyprbot.Queue.RateLimiter.{Verdict, allow, key, ttl}
use hyprbot.Queue.RateLimiter.Stream.{SameStream-incr_with_ttl}
use hyprbot.System.{gets, Sys}
use hyprbot.System.Calm.{
  IsCalm, IsCalm-pure, IsCalm-raise, IsCalm-call, IsCalm-attempt, IsCalm-if, IsCalm-bind,
}
use hyprbot.System.Keeps.{
  Keeps, Keeps-pure, Keeps-raise, Keeps-call, Keeps-bind, Keeps-if, Keeps-gets, Keeps-attempt,
}
use hyprbot.Redis.{IsLawful, Redis}
use hyprbot.Prelude.{
  ◌∙◌, false, true, Option, Result, ok, err, some, none, ◌≡◌, Text, ℕ, ℤ, pos, ◌==◌, int_has_eq,
  refl,
}

-- The stream is as it was, no job was counted, and the clock is the same.
pub record Stays {R : Redis} (s₀ s : Sys R) : Type 0 where
  pub entries : (R.view s₀.redis).entries ≡ (R.view s.redis).entries
  pub last_id : (R.view s₀.redis).last_id ≡ (R.view s.redis).last_id
  pub group : (R.view s₀.redis).group ≡ (R.view s.redis).group
  pub counted : s.metrics.enqueued_jobs ≡ s₀.metrics.enqueued_jobs
  pub same_clock : s.clock ≡ s₀.clock

module _ {R : Redis} (L : IsLawful R) (s₀ : Sys R) where
  Keeps-allow :
      (label : ℕ → Text) (limit : ℕ) (c u : ℤ) (now : ℕ)
      → Keeps (Stays s₀) (allow label R limit c u now)
  unfolding allow
  Keeps-allow label limit c u now =
      Keeps-bind _ _
        (Keeps-call _ _ λ s h.
          let (e, l, g) = SameStream-incr_with_ttl L s.redis now (key label c u now) (ttl now) in
          record {
            entries = h.entries ∙ e;
            last_id = h.last_id ∙ l;
            group = h.group ∙ g;
            counted = h.counted;
            same_clock = h.same_clock;
          })
        (elim [ none ↦ Keeps-raise _ | some n ↦ Keeps-pure _ ])

  Keeps-reply_to : (c : Option ChatInfo) (t : Text) → Keeps (Stays s₀) (reply_to_chat c t)
  unfolding send_message
  Keeps-reply_to none t = Keeps-pure tt
  Keeps-reply_to (some c) t = Keeps-call _ _ (λ s h. record {
    entries = h.entries;
    last_id = h.last_id;
    group = h.group;
    counted = h.counted;
    same_clock = h.same_clock;
  })

  Keeps-reply : (ctx : Context) (t : Text) → Keeps (Stays s₀) (reply ctx t)
  unfolding reply
  Keeps-reply ctx t = Keeps-reply_to ctx.effective_chat t

  module _ (v : Service) where
    Keeps-rate_verdict :
        (ctx : Context) (r : Result Verdict) → Keeps (Stays s₀) (rate_verdict v ctx r)
    Keeps-rate_verdict ctx (err e) = Keeps-pure true
    Keeps-rate_verdict ctx (ok x) =
        Keeps-if x.allowed _ _ (λ e. Keeps-pure true)
          (λ e. Keeps-bind _ _ (Keeps-attempt _ (Keeps-reply ctx _)) (λ r. Keeps-pure false))

    Keeps-limited :
        (o : Option ℕ) (c u : ℤ) (ctx : Context) → Keeps (Stays s₀) (limited v o c u ctx)
    Keeps-limited none c u ctx = Keeps-pure true
    Keeps-limited (some limit) c u ctx =
        Keeps-if (u == pos 0) _ _ (λ e. Keeps-pure true)
          (λ e. Keeps-bind _ _ (Keeps-gets _) (λ now.
            Keeps-bind _ _ (Keeps-attempt _ (Keeps-allow v.hour_label limit c u now))
              (λ r. Keeps-rate_verdict ctx r)))

    pub Keeps-allow_rate : (c u : ℤ) (ctx : Context) → Keeps (Stays s₀) (allow_rate v c u ctx)
    unfolding allow_rate
    Keeps-allow_rate c u ctx = Keeps-limited v.rate_limit c u ctx

module _ {R : Redis} where
  IsCalm-reply_to : (c : Option ChatInfo) (t : Text) → IsCalm {R = R} (reply_to_chat c t)
  unfolding send_message
  IsCalm-reply_to none t = IsCalm-pure tt
  IsCalm-reply_to (some c) t = IsCalm-call _ _

  IsCalm-reply : (ctx : Context) (t : Text) → IsCalm {R = R} (reply ctx t)
  unfolding reply
  IsCalm-reply ctx t = IsCalm-reply_to ctx.effective_chat t

  IsCalm-allow :
      (label : ℕ → Text) (limit : ℕ) (c u : ℤ) (now : ℕ) → IsCalm (allow label R limit c u now)
  unfolding allow
  IsCalm-allow label limit c u now =
      IsCalm-bind _ _ (IsCalm-call _ _) (elim [ none ↦ IsCalm-raise _ | some n ↦ IsCalm-pure _ ])

  IsCalm-gets : {A : Type 0} (f : Sys R → A) → IsCalm (gets f)
  unfolding gets
  IsCalm-gets f = record { at = λ s. refl }

  module _ (v : Service) where
    IsCalm-rate_verdict :
        (ctx : Context) (r : Result Verdict) → IsCalm {R = R} (rate_verdict v ctx r)
    IsCalm-rate_verdict ctx (err e) = IsCalm-pure true
    IsCalm-rate_verdict ctx (ok x) =
        IsCalm-if x.allowed _ _ (IsCalm-pure true)
          (IsCalm-bind _ _ (IsCalm-attempt _ (IsCalm-reply ctx _)) (λ r. IsCalm-pure false))

    IsCalm-limited : (o : Option ℕ) (c u : ℤ) (ctx : Context) → IsCalm {R = R} (limited v o c u ctx)
    IsCalm-limited none c u ctx = IsCalm-pure true
    IsCalm-limited (some limit) c u ctx = IsCalm-if (u == pos 0) _ _ (IsCalm-pure true) (
        IsCalm-bind _ _ (IsCalm-gets _) (λ now.
          IsCalm-bind _ _ (IsCalm-attempt _ (IsCalm-allow v.hour_label limit c u now))
            (λ r. IsCalm-rate_verdict ctx r)))

    pub IsCalm-allow_rate : (c u : ℤ) (ctx : Context) → IsCalm {R = R} (allow_rate v c u ctx)
    unfolding allow_rate
    IsCalm-allow_rate c u ctx = IsCalm-limited v.rate_limit c u ctx
