-- ===== src/Worker/Loop/Progress.antt =====
-- `consumeLoop` of internal/worker/worker.go where no call fails.
use hyprbot.Redis.Commands
use hyprbot.Redis.Commands.{View, Entry}
use hyprbot.Queue.Backlog.{Backlog, acked}
use hyprbot.Worker.{Worker, send_error}
use hyprbot.Worker.Loop.{
  provider_error, handle_message, handle_messages, consume, consume_loop, received, finished,
  next_attempt, acknowledge,
}
use hyprbot.Worker.Loop.Calm.{IsCalm-send_error, IsCalm-process_job}
use hyprbot.Worker.Loop.Jobs.{Same, Keeps-process_job, Keeps-send}
use hyprbot.Worker.Loop.Attempts.{Keeps-of_Same}
use hyprbot.Queue.Stream.{decode_entries, Message, enqueue, ack, read, stamp}
use hyprbot.System.{attempt, Sys, Exec}
use hyprbot.System.Calm.{
  Runs-from, Runs-attempted, Runs-then, OnOk, calm_world, Runs, Runs-pure, Runs-raise, Runs-call,
  Runs-if, Runs-attempt, Runs-modify, Runs-of_Keeps, IsCalm,
}
use hyprbot.Redis.{IsLawful, Redis}
use hyprbot.Prelude.{
  none, some, ◌≤◌, suc, ◌*◌, All, some, ◌∷◌, [], length, List, arith, ltb, ◌-◌, ◌<◌, ℕ, ok, err,
  Result, Text,
}
use hyprbot.Worker.Loop.Work.{
  work-le, Ready-read, Ready-drained, Ready-weaken, IsJob, Given, Held-done, Held-again, Ready,
  Held,
}
use hyprbot.System.Keeps.{Keeps}

module _ {R : Redis} (L : IsLawful R) (w : Worker) where
  abbrev stream : Sys R → View
  stream s = R.view s.redis

  abbrev Waiting : ℕ → Sys R → Type 0
  Waiting n s = Ready w.job_json w.max_job_retries n (stream s)

  abbrev Taken : ℕ → Message → Sys R → Type 0
  Taken n msg s = Held w.job_json w.max_job_retries n msg (stream s)

  Runs-ack :
      (V : View → Type 0) (i : ℕ)
      → Runs (λ s. V (acked i (stream s))) (ack i) (OnOk (λ _ s. V (stream s)))
  unfolding ack
  Runs-ack V i =
      Runs-then (λ _ s. V (Commands.xdel (stream s) i)) _ _
        (Runs-call _ _ (λ s h. rw (L.view-xack s.redis i) h))
        (λ _. Runs-call _ _ (λ s h. rw (L.view-xdel s.redis i) h))

  Runs-acknowledge :
      (V : View → Type 0) (i : ℕ)
      → Runs (λ s. V (acked i (stream s))) (acknowledge w i) (OnOk (λ _ s. V (stream s)))
  Runs-acknowledge V i =
      Runs-attempted (λ _ s. V (stream s)) _ _ (Runs-ack V i) (λ _. Runs-pure _ (λ s h. h))

  Runs-enqueue :
      (n : ℕ) (new_id : Text) (msg : Message)
      → msg.job.attempts < w.max_job_retries
      → Runs
          (Taken n msg)
          (enqueue w.job_json new_id (next_attempt msg.job))
          (OnOk (λ _ s. Ready w.job_json w.max_job_retries (n - 1) (acked msg.id (stream s))))
  unfolding enqueue stamp
  Runs-enqueue n new_id msg few = Runs-call _ _ (λ s h.
      let payload = w.job_json.marshal (stamp new_id s.clock (next_attempt msg.job)) in
      rw (L.view-xadd s.redis payload) (
        Held-again w.job_json w.max_job_retries n msg (stream s) payload
          (stamp new_id s.clock (next_attempt msg.job)) (w.job_json.unmarshal-marshal _)
          (omega arith) few h))

  -- Done with for good.
  Runs-settled :
      (n : ℕ) (msg : Message)
      → Runs (Taken n msg) (acknowledge w msg.id) (OnOk (λ _. Waiting (n - 1)))
  Runs-settled n msg =
      Runs-from _ (λ s h. Held-done w.job_json w.max_job_retries n msg (stream s) h)
        (Runs-acknowledge (Ready w.job_json w.max_job_retries (n - 1)) msg.id)

  Runs-kept :
      {A : Type 0} (n : ℕ) (msg : Message) (m : Exec R A)
      → ((r : R.State) (c : ℕ) → Keeps (Same r c) m)
      → IsCalm m
      → Runs (Taken n msg) (attempt m) (OnOk (λ _. Taken n msg))
  Runs-kept n msg m k c = Runs-attempt m (
      Runs-of_Keeps m (Keeps-of_Same (λ r. Held w.job_json w.max_job_retries n msg (R.view r)) m k)
        c)

  Keeps-error :
      (r : R.State) (c : ℕ) (msg : Message)
      → Keeps (Same {R = R} r c) (send_error w msg.job.chat_id msg.job.message_id provider_error)
  unfolding send_error
  Keeps-error r c msg = Keeps-send r c w _ _ _ _

  Runs-finished :
      (n : ℕ) (new_id : Text) (msg : Message) (r : Result (Unit {0}))
      → Runs (Taken n msg) (finished w new_id msg r) (OnOk (λ _. Waiting (n - 1)))
  Runs-finished n new_id msg (ok _) =
      Runs-then (λ _. Taken n msg) _ _ (Runs-modify _ (λ s h. h)) (λ _. Runs-settled n msg)
  Runs-finished n new_id msg (err e) =
      Runs-then (λ _. Taken n msg) _ _ (Runs-modify _ (λ s h. h))
        (λ _.
          Runs-if (ltb msg.job.attempts w.max_job_retries) _ _
            (λ lt.
              Runs-attempted
                (λ _ s. Ready w.job_json w.max_job_retries (n - 1) (acked msg.id (stream s))) _ _
                (Runs-enqueue n new_id msg (ground arith))
                (λ _. Runs-acknowledge (Ready w.job_json w.max_job_retries (n - 1)) msg.id))
            (λ _.
              Runs-then (λ _. Taken n msg) _ _
                (Runs-kept n msg _ (λ r c. Keeps-error r c msg) (IsCalm-send_error w _ _ _))
                (λ _. Runs-settled n msg)))

  Runs-handle_message :
      (n : ℕ) (new_id : Text) (msg : Message)
      → Runs (Taken n msg) (handle_message w new_id msg) (OnOk (λ _. Waiting (n - 1)))
  unfolding handle_message
  Runs-handle_message n new_id msg =
      Runs-then (λ _. Taken n msg) _ _
        (Runs-kept n msg _ (λ r c. Keeps-process_job r c w msg.job) (IsCalm-process_job w msg.job))
        (Runs-finished n new_id msg)

  -- What a read has given, as messages.
  abbrev Messages : ℕ → List Message → Sys R → Type 0
  Messages n [] s = Waiting (n - 1) s
  Messages n (msg ∷ []) s = Taken n msg s
  Messages n (msg ∷ msg' ∷ msgs) s = ⊥

  Given-decoded :
      (n : ℕ) (es : List Entry) (s : Sys R)
      → Given w.job_json w.max_job_retries n (some es) (stream s)
      → Messages n (decode_entries w.job_json es) s
  unfolding decode_entries
  Given-decoded n [] s h = h
  Given-decoded n (e ∷ []) s (job, q, h) = rw (q, Messages, decode_entries) h
  Given-decoded n (e ∷ f ∷ es) s h = elim h [ ]

  Runs-read : (n : ℕ) → Runs (Waiting n) (read w.job_json 1) (OnOk (Messages n))
  unfolding read
  Runs-read n =
      Runs-then (λ o s. Given w.job_json w.max_job_retries n o (stream s)) _ _
        (Runs-call _ _ (λ s h.
          rw (L.view-xreadgroup s.redis 1, L.answer-xreadgroup s.redis 1)
            (Ready-read w.job_json w.max_job_retries n (stream s) h)))
        (elim [ none ↦ Runs-raise _ (λ s h. h) | some es ↦ Runs-pure _ (Given-decoded n es) ])

  Runs-received :
      (n : ℕ) (new_id : Text) (msgs : List Message)
      → Runs (Messages n msgs) (received w new_id (ok msgs)) (OnOk (λ _. Waiting (n - 1)))
  unfolding handle_messages
  Runs-received n new_id [] = Runs-pure _ (λ s h. h)
  Runs-received n new_id (msg ∷ []) =
      Runs-then (λ _. Waiting (n - 1)) _ _ (Runs-handle_message n new_id msg)
        (λ _. Runs-pure _ (λ s h. h))
  Runs-received n new_id (msg ∷ msg' ∷ msgs) = record {
    calm = λ s h. elim h [ ];
    at = λ s h. elim h [ ];
  }

  -- A round takes one off the rounds that the jobs need.
  Runs-consume :
      (n : ℕ) (new_id : Text) → Runs (Waiting n) (consume w new_id) (OnOk (λ _. Waiting (n - 1)))
  unfolding consume
  Runs-consume n new_id = Runs-attempted (Messages n) _ _ (Runs-read n) (Runs-received n new_id)

  Runs-consume_loop :
      (n : ℕ) (new_ids : List Text)
      → n ≤ length new_ids
      → Runs (Waiting n) (consume_loop w new_ids) (OnOk (λ _. Waiting 0))
  unfolding consume_loop
  Runs-consume_loop n [] k =
      Runs-pure _ (λ s h. Ready-weaken w.job_json w.max_job_retries n 0 (stream s) k h)
  Runs-consume_loop n (new_id ∷ new_ids) k =
      Runs-then (λ _. Waiting (n - 1)) _ _ (Runs-consume n new_id)
        (λ _. Runs-consume_loop (n - 1) new_ids (omega arith))

  -- If the entries that wait in the stream are jobs, with rising identifiers, and none is
  -- pending, and no call to Redis, the database or Telegram fails any more, then after as many
  -- rounds of a worker's loop as there are jobs times max_job_retries + 1, no job waits and none
  -- is pending, even if the provider answers every request with an error.
  pub consume_loop-drains :
      (s : Sys R) (last : ℕ) (jobs : List Entry) (new_ids : List Text)
      → Backlog (R.view s.redis) [] last jobs
      → All (IsJob w.job_json w.max_job_retries) jobs
      → length jobs * suc w.max_job_retries ≤ length new_ids
      → (last' : ℕ) × Backlog
          (R.view (consume_loop w new_ids (calm_world s)).1.sys.redis)
          []
          last'
          []
  consume_loop-drains s last jobs new_ids b k m = drained _ (
      (Runs-consume_loop (length new_ids) new_ids (omega arith)).at s (record {
        last = last;
        jobs = jobs;
        backlog = b;
        are_jobs = k;
        enough = work_fits m (work-le w.job_json w.max_job_retries jobs);
      }))
    where
      work_fits : {a b c : ℕ} → b ≤ c → a ≤ b → a ≤ c
      work_fits h k = omega arith

      drained :
          (r : Result (Unit {0}))
          → OnOk (λ _. Waiting 0) r (consume_loop w new_ids (calm_world s)).1.sys
          → (last' : ℕ) × Backlog
              (R.view (consume_loop w new_ids (calm_world s)).1.sys.redis)
              []
              last'
              []
      drained (ok x) h = Ready-drained w.job_json w.max_job_retries _ h
      drained (err e) h = elim h [ ]
