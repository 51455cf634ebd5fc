-- ===== src/Queue/RateLimiter.antt =====
-- `RateLimiter` of internal/queue/ratelimit.go: a counter in Redis for each chat, user and hour.
pub mod Keys
pub mod Stream
pub mod Window
use hyprbot.Prelude.{
  ℕ, zero, suc, ◌+◌, ◌-◌, ◌*◌, ◌/◌, ◌%◌, ◌≡◌, Bool, Option, none, some, List, [], ◌∷◌, ◌++◌, Text,
  text, ℤ, leb, ltb, eqb, if◌then◌else◌, failed, err,
}
use hyprbot.Strings.Decimal.{format_int}
use hyprbot.Redis.{Redis}
use hyprbot.System.{Sys, Exec, pure, raise, call, ◌>>=◌}

-- In nanoseconds, as `time.Duration` counts.
abbrev pub second : ℕ
second = 1000000000

abbrev pub hour : ℕ
hour = 3600000000000

-- `now.UTC().Truncate(time.Hour)`, and one hour later.
abbrev pub window_start : ℕ → ℕ
window_start now = now / hour * hour

abbrev pub window_end : ℕ → ℕ
window_end now = window_start now + hour

-- The `ttl` of the counter, in whole seconds and at least one.
unfoldable pub ttl : ℕ → ℕ
ttl now = let t = (window_end now - now) / second in if ltb t 1 then 1 else t

pub record Verdict : Type 0 where
  pub allowed : Bool
  pub used : ℕ
  pub reset_at : ℕ

module _ (R : Redis) where
  abbrev set_ttl : R.State × Option ℕ → ℕ → Text → ℕ → R.State × Option ℕ
  set_ttl (s, none) now k t = (s, none)
  set_ttl (s, some c) now k t = ((if eqb c 1 then R.expire s now k (t * second) else s), some c)

  -- `incrWithTTLScript`: Redis runs it in one piece.
  unfoldable pub incr_with_ttl : R.State → ℕ → Text → ℕ → R.State × Option ℕ
  incr_with_ttl s now k t = set_ttl (R.incr s now k) now k t

-- `hour_label` is `windowStart.Format("2006010215")`, by the number of the hour.
module _ (hour_label : ℕ → Text) where
  -- "hyprbot:ratelimit:%d:%d:%s"
  unfoldable pub key : ℤ → ℤ → ℕ → Text
  key chat_id user_id now =
      text "hyprbot:ratelimit:"
      ++ (format_int chat_id ++ b':' ∷ (format_int user_id ++ b':' ∷ hour_label (now / hour)))

  module _ (R : Redis) where
    abbrev verdict : ℕ → ℕ → Option ℕ → Exec R Verdict
    verdict limit now none = raise (failed "rate limit script")
    verdict limit now (some used) =
        pure (record { allowed = leb used limit; used = used; reset_at = window_end now })

    -- `Allow`
    unfoldable pub allow : ℕ → ℤ → ℤ → ℕ → Exec R Verdict
    unfolding key incr_with_ttl ttl
    allow limit chat_id user_id now =
        call
          (λ s.
            let (redis, answer) = incr_with_ttl R s.redis now (key chat_id user_id now) (ttl now) in
            (answer, record s { redis = redis }))
          "rate limit script"
        >>= λ answer. verdict limit now answer
