-- ===== src/Examples/Queue.antt =====
-- The theorems on internal/queue, applied.
use hyprbot.Queue.RateLimiter.{ttl, key, allow, second, window_end, hour}
use hyprbot.Queue.RateLimiter.Keys.{key_injective}
use hyprbot.Queue.RateLimiter.Window.{
  allow_times, numbered, allow_times-eq-numbered, allow-other, early_reset, Counts,
}
use hyprbot.Queue.Stream.{ensure_group, AskJob, read, enqueue}
use hyprbot.Queue.Delivery.{Handed, handed_ids, Ascends, reads, enqueues, idle, starts}
use hyprbot.Queue.Delivery.Once.{handed_once, early_jobs_lost}
use hyprbot.Examples.Libraries.{job_codec}
use hyprbot.System.{World}
use hyprbot.Redis.Memory.{memory, memory-IsLawful, empty_server}
use hyprbot.Redis.Commands.{View}
use hyprbot.Examples.States.{running}
use hyprbot.Strings.Decimal.{format_uint}
use hyprbot.Prelude.{
  inl, ◌++◌, text, beq_self, ◌+◌, arith, text_has_eq, leb, refl, none, ok, some, negsuc, ◌*◌, [],
  Text, ◌==◌, ◌∷◌, ◌≡◌, ◌/◌, pos, ◌-◌, if◌then◌else◌, ℕ,
}

abbrev label : ℕ → Text
label n = n ∷ []

same_hour : key label (pos 5) (negsuc 6) 1 ≡ key label (pos 5) (negsuc 6) 2
unfolding key
same_hour = refl

key_injective_example :
    (pos 5 ≡ pos 5) × (negsuc 6 ≡ negsuc 6) × (label (1 / hour) ≡ label (2 / hour))
key_injective_example = key_injective label (pos 5) (pos 5) (negsuc 6) (negsuc 6) 1 2 same_hour

ttl_0 : ttl 0 ≡ 3600
unfolding ttl
ttl_0 = refl

ttl_1 : ttl 1 ≡ 3599
unfolding ttl
ttl_1 = refl

allow_times-eq-numbered_example :
    (allow_times label memory memory-IsLawful 2
      (pos 5)
      (pos 7)
      (0 ∷ second ∷ 3 * second ∷ [])
      (record { sys = running empty_server 0; fates = [] })).0
    ≡ ok (numbered label memory memory-IsLawful 2 (pos 5) (pos 7) 0 (0 ∷ second ∷ 3 * second ∷ []))
allow_times-eq-numbered_example =
    allow_times-eq-numbered label memory memory-IsLawful 2 (pos 5) (pos 7)
      (second ∷ 3 * second ∷ []) (running empty_server 0) 0 refl
      ((refl, omega (arith, ttl_0)), ((refl, omega (arith, ttl_0)), tt))

-- A counter that the hour's first call, a nanosecond after the hour, has set to expire.
abbrev counted : View
counted = record {
  cells = λ k.
      if k == key label (pos 5) (pos 7) 1
      then some (record { value = format_uint 4; deadline = some 3599000000001 })
      else none;
  entries = [];
  last_id = 0;
  group = none;
}

counted_lem : Counts counted (key label (pos 5) (pos 7) 1) 4 (1 + ttl 1 * second)
counted_lem = rw (beq_self (key label (pos 5) (pos 7) 1), ttl_1) refl

early_reset_example :
    let t = window_end 1 - 1 in
    (t / hour ≡ 1 / hour)
    × ((allow label memory 2 (pos 5) (pos 7) t (record { sys = running counted 1; fates = [] })).0
        ≡ ok (record { allowed = leb 1 2; used = 1; reset_at = window_end 1 }))
early_reset_example =
    early_reset label memory memory-IsLawful 2 (pos 5) (pos 7) (running counted 1) 1 4 (omega arith)
      (omega arith) counted_lem

allow-other_example :
    let w : World memory = record { sys = running counted 1; fates = [] } in
    let s' = (allow label memory 3 (pos 6) (pos 7) 1 w).1.sys in
    (s'.redis.cells (key label (pos 5) (pos 7) 1) ≡ counted.cells (key label (pos 5) (pos 7) 1))
    × ((allow label memory 2 (pos 5) (pos 7) 1 (record { sys = s'; fates = [] })).0
        ≡ (allow label memory 2 (pos 5) (pos 7) 1 w).0)
allow-other_example =
    allow-other label memory memory-IsLawful 2 (pos 5) (pos 7) 3 (pos 6) (pos 7) 1 1
      (record { sys = running counted 1; fates = [] }) (inl (λ e. absurd (ground arith)))

-- Two jobs wait; one process reads the first, another adds a job and reads the others.
abbrev job : AskJob
job = record {
  job_id = text "j";
  chat_id = pos 5;
  chat_type = text "group";
  user_id = pos 7;
  message_id = pos 9;
  prompt = text "6 * 7?";
  preset_name = [];
  enqueued_at = some 1;
  attempts = 0;
}

abbrev two_jobs : World memory
two_jobs = record {
  sys =
      running
        (record {
          cells = λ k. none;
          entries =
              record { id = 3; payload = job_codec.marshal job }
              ∷ record { id = 4; payload = job_codec.marshal job }
              ∷ [];
          last_id = 4;
          group = some (record { last_delivered = 2; pending = [] });
        })
        10;
  fates = [];
}

abbrev first_read : World memory
first_read = (read job_codec 1 two_jobs).1

abbrev added : World memory
added = (enqueue job_codec (text "n") job first_read).1

abbrev all_read : World memory
all_read = (read job_codec 5 added).1

abbrev run :
    Handed job_codec two_jobs
      (handed_ids (read job_codec 1 two_jobs).0 ++ (handed_ids (read job_codec 5 added).0 ++ []))
      all_read
run = reads 1 _ _ _ (enqueues (text "n") job _ _ _ (reads 5 _ _ _ (idle _)))

handed_once_example :
    Ascends 0
      (handed_ids (read job_codec 1 two_jobs).0 ++ (handed_ids (read job_codec 5 added).0 ++ []))
handed_once_example =
    handed_once memory-IsLawful job_codec two_jobs all_read
      (handed_ids (read job_codec 1 two_jobs).0 ++ (handed_ids (read job_codec 5 added).0 ++ []))
      (omega arith, (omega arith, omega arith)) run

-- A job waits for the first worker, which creates the group and reads.
abbrev early : World memory
early = record {
  sys =
      running
        (record {
          cells = λ k. none;
          entries = record { id = 1; payload = job_codec.marshal job } ∷ [];
          last_id = 1;
          group = none;
        })
        10;
  fates = [];
}

abbrev started : World memory
started = (ensure_group early).1

early_jobs_lost_example : Ascends 1 (handed_ids (read job_codec 5 started).0 ++ [])
early_jobs_lost_example =
    early_jobs_lost memory-IsLawful job_codec early (read job_codec 5 started).1
      (handed_ids (read job_codec 5 started).0 ++ []) refl (omega arith, omega arith)
      (starts _ _ _ (reads 5 _ _ _ (idle _)))
