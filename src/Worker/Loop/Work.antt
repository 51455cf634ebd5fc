-- ===== src/Worker/Loop/Work.antt =====
-- The work that the jobs of a stream are for `consumeLoop` of internal/worker/worker.go: the rounds that
-- they take at most.
use hyprbot.Redis.Commands.{View, Entry}
use hyprbot.Redis.Commands
use hyprbot.Queue.Backlog.{Backlog, acked, read-idle, read-first, xadd-Backlog, acked-Backlog}
use hyprbot.Queue.Stream.{AskJob, Message}
use hyprbot.Encoding.Json.{Codec}
use hyprbot.Prelude.{
  ℕ, suc, ◌+◌, ◌-◌, ◌*◌, ◌≤◌, ◌<◌, ◌≡◌, List, [], ◌∷◌, ◌++◌, Option, some, none, Text, All, arith,
  length, sym, subst,
}

-- The rounds that a job takes if each of them fails.
abbrev rounds_of : ℕ → Option AskJob → ℕ
rounds_of max none = 0
rounds_of max (some job) = suc (max - job.attempts)

module _ (json : Codec AskJob) (max : ℕ) where
  -- The entry is a job.
  abbrev pub IsJob : Entry → Type 0
  IsJob e = (job : AskJob) × (json.unmarshal e.payload ≡ some job)

  unfoldable pub work : List Entry → ℕ
  work [] = 0
  work (e ∷ es) = rounds_of max (json.unmarshal e.payload) + work es

  work-append_last :
      (es : List Entry) (e : Entry)
      → work (es ++ e ∷ []) ≡ work es + rounds_of max (json.unmarshal e.payload)
  unfolding work
  work-append_last [] e = omega arith
  work-append_last (f ∷ es) e = ground (arith, work-append_last es e)

  IsJob-append_last :
      (es : List Entry) (e : Entry) → All IsJob es → IsJob e → All IsJob (es ++ e ∷ [])
  IsJob-append_last [] e h k = (k, tt)
  IsJob-append_last (f ∷ es) e h k = (h.0, IsJob-append_last es e h.1 k)

  rounds_of-le : (o : Option AskJob) → rounds_of max o ≤ suc max
  rounds_of-le none = omega arith
  rounds_of-le (some job) = omega arith

  pub work-le : (es : List Entry) → work es ≤ length es * suc max
  unfolding work
  work-le [] = omega arith
  work-le (e ∷ es) = ground (arith, work-le es, rounds_of-le (json.unmarshal e.payload))

  -- Jobs wait that take at most `n` rounds, and none is pending.
  pub record Ready (n : ℕ) (v : View) : Type 0 where
    pub last : ℕ
    pub jobs : List Entry
    pub backlog : Backlog v [] last jobs
    pub are_jobs : All IsJob jobs
    pub enough : work jobs ≤ n

  -- The message `msg` was read, and the others take what it leaves of `n` rounds.
  pub record Held (n : ℕ) (msg : Message) (v : View) : Type 0 where
    pub jobs : List Entry
    pub backlog : Backlog v (msg.id ∷ []) msg.id jobs
    pub are_jobs : All IsJob jobs
    pub enough : rounds_of max (some msg.job) + work jobs ≤ n

  -- The message is done with.
  pub Held-done : (n : ℕ) (msg : Message) (v : View) → Held n msg v → Ready (n - 1) (acked msg.id v)
  Held-done n msg v h = record {
    last = msg.id;
    jobs = h.jobs;
    backlog = acked-Backlog v msg.id h.jobs h.backlog;
    are_jobs = h.are_jobs;
    enough = fits h.enough;
  }
    where
      fits : suc (max - msg.job.attempts) + work h.jobs ≤ n → work h.jobs ≤ n - 1
      fits k = omega arith

  -- The message is put into the stream again, with one more attempt.
  pub Held-again :
      (n : ℕ) (msg : Message) (v : View) (payload : Text) (job : AskJob)
      → json.unmarshal payload ≡ some job
      → job.attempts ≡ suc msg.job.attempts
      → msg.job.attempts < max
      → Held n msg v
      → Ready (n - 1) (acked msg.id (Commands.xadd v payload).0)
  Held-again n msg v payload job e more few h = record {
    last = msg.id;
    jobs = h.jobs ++ record { id = suc v.last_id; payload = payload } ∷ [];
    backlog = acked-Backlog _ msg.id _ (xadd-Backlog v _ msg.id h.jobs payload h.backlog);
    are_jobs = IsJob-append_last h.jobs _ h.are_jobs (job, e);
    enough =
        rw (work-append_last h.jobs (record { id = suc v.last_id; payload = payload }), e)
          (fits (work h.jobs) h.enough);
  }
    where
      fits : (m : ℕ) → suc (max - msg.job.attempts) + m ≤ n → m + suc (max - job.attempts) ≤ n - 1
      fits m k = rw more (omega arith)

  -- What a read has given.
  abbrev pub Given : ℕ → Option (List Entry) → View → Type 0
  Given n none v = ⊥
  Given n (some []) v = Ready (n - 1) v
  Given n (some (e ∷ [])) v =
      (job : AskJob) × (json.unmarshal e.payload ≡ some job)
      × Held n (record { id = e.id; job = job }) v
  Given n (some (e ∷ f ∷ es)) v = ⊥

  pub Ready-read :
      (n : ℕ) (v : View)
      → Ready n v
      → Given n (Commands.xreadgroup v 1).1 (Commands.xreadgroup v 1).0
  unfolding work
  Ready-read n v h = by_jobs h.jobs h.backlog h.are_jobs h.enough
    where
      by_jobs :
          (es : List Entry)
          → Backlog v [] h.last es
          → All IsJob es
          → work es ≤ n
          → Given n (Commands.xreadgroup v 1).1 (Commands.xreadgroup v 1).0
      by_jobs [] b k m =
          let (after, answer) = read-idle v h.last b in
          subst (λ o. Given n o (Commands.xreadgroup v 1).0) (sym answer)
            (record {
              last = h.last;
              jobs = [];
              backlog = after;
              are_jobs = tt;
              enough = omega arith;
            })
      by_jobs (e ∷ es) b ((job, q), k) m =
          let (after, answer) = read-first v h.last e es b in
          subst (λ o. Given n o (Commands.xreadgroup v 1).0) (sym answer)
            (
              job,
              q,
              record {
                jobs = es;
                backlog = after;
                are_jobs = k;
                enough = subst (λ o. rounds_of max o + work es ≤ n) q m;
              },
            )

  pub Ready-weaken : (n m : ℕ) (v : View) → n ≤ m → Ready n v → Ready m v
  Ready-weaken n m v l h = record {
    last = h.last;
    jobs = h.jobs;
    backlog = h.backlog;
    are_jobs = h.are_jobs;
    enough = fits h.enough;
  }
    where
      fits : work h.jobs ≤ n → work h.jobs ≤ m
      fits k = omega arith

  -- No round is left to do, so nothing waits.
  pub Ready-drained : (v : View) → Ready 0 v → (last : ℕ) × Backlog v [] last []
  unfolding work
  Ready-drained v h = (h.last, by_jobs h.jobs h.backlog h.are_jobs h.enough)
    where
      by_jobs :
          (es : List Entry)
          → Backlog v [] h.last es
          → All IsJob es
          → work es ≤ 0
          → Backlog v [] h.last []
      by_jobs [] b k m = b
      by_jobs (e ∷ es) b ((job, q), k) m =
          absurd (none_left (work es) (subst (λ o. rounds_of max o + work es ≤ 0) q m))
        where
          none_left : (m : ℕ) → suc (max - job.attempts) + m ≤ 0 → ⊥
          none_left m k = omega arith
