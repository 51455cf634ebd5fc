-- ===== src/Queue/Dedupe.antt =====
-- `UpdateDeduplicator` of internal/queue/ratelimit.go: a key in Redis for each update.
use hyprbot.Prelude.{
  failed, negsuc, some, none, eqb, if◌then◌else◌, ok, pos, err, Option, Result, ℕ, Bool, Text, text,
  ◌++◌, ℤ,
}
use hyprbot.Strings.Decimal.{format_int}
use hyprbot.Redis.{Redis}
use hyprbot.System.{Exec, Sys, call, lift, ◌>>=◌}

-- "hyprbot:update:%d"
unfoldable pub update_key : ℤ → Text
update_key update_id = text "hyprbot:update:" ++ format_int update_id

-- The expiry that go-redis's `SetNX` asks Redis for: 0 is none, -1 keeps the expiry of the key, which a new
-- key has not, and Redis refuses the other negative ones.
unfoldable pub expiry : ℤ → Result (Option ℕ)
expiry (pos n) = ok (if eqb n 0 then none else some n)
expiry (negsuc n) = if eqb n 0 then ok none else err (failed "dedupe setnx")

module _ {R : Redis} where
  -- SET with NX; a command that is refused changes nothing.
  abbrev pub set_mark : Result (Option ℕ) → ℤ → Sys R → Result Bool × R.State
  set_mark (err e) update_id s = (err e, s.redis)
  set_mark (ok ttl) update_id s =
      let (redis, answer) = R.set_nx s.redis s.clock (update_key update_id) (text "1") ttl in
      (ok answer, redis)

  abbrev pub mark_with : Result (Option ℕ) → ℤ → Exec R Bool
  mark_with ttl update_id =
      call
        (λ s.
          let (answer, redis) = set_mark ttl update_id s in (answer, record s { redis = redis }))
        "dedupe setnx"
      >>= lift

  -- `MarkFirst`, at the clock's time. `ttl` is in nanoseconds.
  unfoldable pub mark_first : ℤ → ℤ → Exec R Bool
  unfolding update_key expiry
  mark_first ttl update_id = mark_with (expiry ttl) update_id
