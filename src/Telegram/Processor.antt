-- ===== src/Telegram/Processor.antt =====
-- internal/telegram/processor.go: access control and deduplication in front of the handlers.
pub mod Laws
use hyprbot.Prelude.{
  ℕ, suc, ◌+◌, ◌≡◌, Bool, true, false, ◌&&◌, Option, none, some, List, ℤ, is_positive, ◌==◌,
  int_has_eq, if◌then◌else◌, Result, ok, err, not,
}
use hyprbot.Redis.{Redis}
use hyprbot.System.{Sys, Exec, pure, modify, attempt, ◌>>=◌, ◌>>◌}
use hyprbot.Queue.Dedupe.{mark_first}
use hyprbot.Telegram.Context.{Context}

-- `dedupe` is the time to live of the deduplicator's keys, in nanoseconds, `none` where there is no deduplicator.
pub record Processor : Type 0 where
  pub dedupe : Option ℤ
  pub has_metrics : Bool
  pub allowed_user_id : ℤ

-- `ctx.EffectiveUser == nil || ctx.EffectiveUser.Id != p.AllowedUserID` is false
is_user : Option ℤ → ℤ → Bool
is_user none id = false
is_user (some u) id = u == id

-- Whether the private mode lets the update in.
unfoldable pub admits : Processor → Context → Bool
unfolding is_user
admits p ctx =
    if is_positive p.allowed_user_id then is_user ctx.effective_user p.allowed_user_id else true

abbrev pub count_update : {R : Redis} → Sys R → Sys R
count_update s = record s {
  metrics = record s.metrics { updates_total = s.metrics.updates_total + 1 };
}

module _ {R : Redis} (base : Exec R (Unit {0})) where
  -- The base processor runs on a first update, and where Redis fails.
  abbrev pub after_mark : Result Bool → Exec R (Unit {0})
  after_mark (err e) = base
  after_mark (ok true) = base
  after_mark (ok false) = pure tt

  abbrev pub deduplicated : Option ℤ → ℤ → Exec R (Unit {0})
  deduplicated none update_id = base
  deduplicated (some ttl) update_id = attempt (mark_first ttl update_id) >>= after_mark

  abbrev pub counted : Bool → Exec R (Unit {0})
  counted true = modify count_update
  counted false = pure tt

  -- The body of `ProcessUpdate`, over what it tests.
  unfoldable pub process_with : Bool → Bool → Option ℤ → ℤ → Exec R (Unit {0})
  process_with has_metrics admitted dedupe update_id =
      counted has_metrics >> (if admitted then deduplicated dedupe update_id else pure tt)

  -- `ProcessUpdate`
  unfoldable pub process_update : Processor → Context → Exec R (Unit {0})
  unfolding admits process_with
  process_update p ctx = process_with p.has_metrics (admits p ctx) p.dedupe ctx.update_id
