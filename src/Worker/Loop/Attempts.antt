-- ===== src/Worker/Loop/Attempts.antt =====
-- The attempts of the jobs that `consumeLoop` of internal/worker/worker.go leaves in the stream.
use hyprbot.Redis.Commands
use hyprbot.Redis.Commands.{Entry, drop_entry}
use hyprbot.Worker.{Worker, process_job, send_error}
use hyprbot.Worker.Loop.{
  handle_message, handle_messages, consume, consume_loop, received, finished, requeued,
  next_attempt,
}
use hyprbot.Worker.Loop.Jobs.{Same, Keeps-process_job, Keeps-send}
use hyprbot.Queue.Stream.{AskJob, Message, enqueue, ack, read, stamp}
use hyprbot.System.{World, Sys, Exec}
use hyprbot.System.Keeps.{
  Keeps-attempt, Keeps-raise, Keeps-modify, Keeps-pure, Keeps-bind, Keeps, Keeps-call, keeps_rules,
  Keeps-if,
}
use hyprbot.Prelude.{
  ltb, arith, inr, inl, err, eqb, Bool-cases, ok, refl, [], none, ◌++◌, sym, ℤ, ◌≤◌, ◌∷◌, Result,
  Text, All, subst, some, ◌≡◌, Option, List, ℕ,
}
use hyprbot.Encoding.Json.{Codec}
use hyprbot.Redis.{IsLawful, Redis}

abbrev pub Within : ℕ → Option AskJob → Type 0
Within max none = Unit
Within max (some job) = job.attempts ≤ max

-- Every job in the stream has at most `max` attempts behind it.
abbrev pub IsBounded : Codec AskJob → ℕ → Commands.View → Type 0
IsBounded json max v = All (λ e. Within max (json.unmarshal e.payload)) v.entries

module _ (P : Entry → Type 0) where
  All-append_last : (es : List Entry) (e : Entry) → All P es → P e → All P (es ++ e ∷ [])
  All-append_last [] e h k = (k, tt)
  All-append_last (f ∷ es) e h k = (h.0, All-append_last es e h.1 k)

  All-drop_entry : (i : ℕ) (es : List Entry) → All P es → All P (drop_entry i es)
  unfolding drop_entry
  All-drop_entry i [] h = tt
  All-drop_entry i (e ∷ es) h = elim (Bool-cases (eqb i e.id)) [
    | inl q ↦ rw (q, drop_entry) (All-drop_entry i es h.1)
    | inr q ↦ rw (q, drop_entry) (h.0, All-drop_entry i es h.1)
  ]

-- What holds of the server is kept by a method that leaves the server alone.
pub Keeps-of_Same :
    {R : Redis} {A : Type 0} (Q : R.State → Type 0) (m : Exec R A)
    → ((r : R.State) (c : ℕ) → Keeps (Same r c) m)
    → Keeps (λ s. Q s.redis) m
Keeps-of_Same Q m k = record {
  at = λ w h. subst Q (sym ((k w.sys.redis w.sys.clock).at w (refl, refl)).0) h;
}

-- Reading moves the group on, and leaves the entries.
entries-read : (v : Commands.View) (n : ℕ) → (Commands.xreadgroup v n).0.entries ≡ v.entries
entries-read v n = ground arith

module _ {R : Redis} (L : IsLawful R) (w : Worker) where
  abbrev Bounded : Sys R → Type 0
  Bounded s = IsBounded w.job_json w.max_job_retries (R.view s.redis)

  Keeps-ack : (i : ℕ) → Keeps Bounded (ack i)
  unfolding ack
  Keeps-ack i =
      Keeps-bind _ _ (Keeps-call _ _ (λ s h. rw (L.view-xack s.redis i) h))
        (λ _. Keeps-call _ _ (λ s h. rw (L.view-xdel s.redis i) (All-drop_entry _ i _ h)))

  Keeps-enqueue :
      (new_id : Text) (job : AskJob)
      → job.attempts ≤ w.max_job_retries
      → Keeps Bounded (enqueue w.job_json new_id job)
  unfolding enqueue stamp
  Keeps-enqueue new_id job fits = Keeps-call _ _ (λ s h.
      rw (L.view-xadd s.redis (w.job_json.marshal (stamp new_id s.clock job)))
        (All-append_last _ _ _ h (rw w.job_json.unmarshal-marshal fits)))

  Keeps-process : (job : AskJob) → Keeps Bounded (process_job w job)
  Keeps-process job =
      Keeps-of_Same (λ r. IsBounded w.job_json w.max_job_retries (R.view r)) _
        (λ r c. Keeps-process_job r c w job)

  Keeps-send_error : (a b : ℤ) (t : Text) → Keeps Bounded (send_error w a b t)
  unfolding send_error
  Keeps-send_error a b t =
      Keeps-of_Same (λ r. IsBounded w.job_json w.max_job_retries (R.view r)) _
        (λ r c. Keeps-send r c w a b t _)

  Keeps-requeued : (i : ℕ) (r : Result ℕ) → Keeps Bounded (requeued w i r)
  Keeps-requeued i (ok n) = search (keeps_rules, Keeps-ack)
  Keeps-requeued i (err e) = Keeps-pure tt

  Keeps-finished :
      (new_id : Text) (msg : Message) (r : Result (Unit {0}))
      → Keeps Bounded (finished w new_id msg r)
  Keeps-finished new_id msg (ok _) = search (keeps_rules, Keeps-ack, Keeps-modify)
  Keeps-finished new_id msg (err e) = Keeps-bind _ _ (Keeps-modify _ (λ s h. h)) (λ _.
      Keeps-if (ltb msg.job.attempts w.max_job_retries) _ _
        (λ lt.
          Keeps-bind _ _
            (Keeps-attempt _ (Keeps-enqueue new_id (next_attempt msg.job) (ground arith)))
            (λ r. Keeps-requeued msg.id r))
        (λ _. search (keeps_rules, Keeps-ack, Keeps-send_error)))

  -- A worker never writes a job with more than `max_job_retries` attempts to the stream.
  pub Keeps-handle_message :
      (new_id : Text) (msg : Message) → Keeps Bounded (handle_message w new_id msg)
  unfolding handle_message
  Keeps-handle_message new_id msg = search (keeps_rules, Keeps-process, Keeps-finished)

  Keeps-handle_messages :
      (new_id : Text) (msgs : List Message) → Keeps Bounded (handle_messages w new_id msgs)
  unfolding handle_messages
  Keeps-handle_messages new_id [] = Keeps-pure tt
  Keeps-handle_messages new_id (msg ∷ msgs) =
      Keeps-bind _ _ (Keeps-handle_message new_id msg) (λ _. Keeps-handle_messages new_id msgs)

  Keeps-read : (n : ℕ) → Keeps Bounded (read w.job_json n)
  unfolding read
  Keeps-read n =
      Keeps-bind _ _
        (Keeps-call _ _
          (λ s h. rw (L.view-xreadgroup s.redis n) (rw (entries-read (R.view s.redis) n) h)))
        (elim [ none ↦ Keeps-raise _ | some es ↦ Keeps-pure _ ])

  Keeps-received : (new_id : Text) (r : Result (List Message)) → Keeps Bounded (received w new_id r)
  Keeps-received new_id (ok msgs) = Keeps-handle_messages new_id msgs
  Keeps-received new_id (err e) = Keeps-pure tt

  Keeps-consume : (new_id : Text) → Keeps Bounded (consume w new_id)
  unfolding consume
  Keeps-consume new_id = search (keeps_rules, Keeps-read, Keeps-received)

  Keeps-consume_loop : (new_ids : List Text) → Keeps Bounded (consume_loop w new_ids)
  unfolding consume_loop
  Keeps-consume_loop [] = Keeps-pure tt
  Keeps-consume_loop (new_id ∷ new_ids) =
      Keeps-bind _ _ (Keeps-consume new_id) (λ _. Keeps-consume_loop new_ids)

  -- If every job in the stream has at most max_job_retries attempts behind it, that stays so
  -- over any number of rounds of the worker's loop, whichever calls fail.
  pub consume_loop-IsBounded :
      (new_ids : List Text) (w₀ : World R)
      → IsBounded w.job_json w.max_job_retries (R.view w₀.sys.redis)
      → IsBounded w.job_json w.max_job_retries (R.view (consume_loop w new_ids w₀).1.sys.redis)
  consume_loop-IsBounded new_ids w₀ h = (Keeps-consume_loop new_ids).at w₀ h
