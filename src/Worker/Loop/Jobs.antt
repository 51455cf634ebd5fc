-- ===== src/Worker/Loop/Jobs.antt =====
-- What `consumeLoop` of internal/worker/worker.go does with a job whose processing fails.
use hyprbot.Redis.Commands
use hyprbot.Redis.Commands.{Entry, drop_entry}
use hyprbot.Worker.{Worker, process_job, resolve_preset, answer, resolved, send, send_error}
use hyprbot.Worker.Loop.{count_failed, handle_message, finished, requeued, next_attempt}
use hyprbot.Queue.Stream.{AskJob, Message, enqueue, ack, stamp}
use hyprbot.System.{pure, modify, attempt, World, unanswered, lost, done, Fate, call, Sys, ◌>>=◌}
use hyprbot.System.Keeps.{
  Keeps-pure, Keeps-attempt, Keeps-raise, Keeps-bind, Keeps, Keeps-call, keeps_rules,
}
use hyprbot.Redis.{IsLawful, Redis}
use hyprbot.Prelude.{
  true, ◌<◌, ltb, refl, Error, eqb_iff, Bool-cases, arith, false, ◌≤◌, eqb, sym, not_found, inr,
  failed, [], err, inl, ◌⊎◌, ok, ◌++◌, ◌≢◌, ◌∷◌, String, List, ℤ, Result, ◌≡◌, Text, ℕ,
}
use hyprbot.Storage.Store.{get_preset_with_provider_by_name, get_default_preset_with_provider}
use hyprbot.Storage.Tables.{PresetWithProvider}
use hyprbot.Encoding.Json.{Codec}

-- Methods that leave Redis and the clock alone.
module _ {R : Redis} (r : R.State) (c : ℕ) where
  abbrev pub Same : Sys R → Type 0
  Same s = (s.redis ≡ r) × (s.clock ≡ c)

  module _ (w : Worker) where
    Keeps-resolve_preset : (chat_id : ℤ) (name : Text) → Keeps Same (resolve_preset w chat_id name)
    unfolding resolve_preset get_default_preset_with_provider get_preset_with_provider_by_name
    Keeps-resolve_preset chat_id name = search (keeps_rules, Keeps-call)

    pub Keeps-send : (a b : ℤ) (t : Text) (label : String) → Keeps Same (send w a b t label)
    unfolding send
    Keeps-send a b t label = Keeps-call _ _ (λ s h. h)

    Keeps-answer : (job : AskJob) (pp : PresetWithProvider) → Keeps Same (answer w job pp)
    unfolding answer
    Keeps-answer job pp = search (keeps_rules, Keeps-call, Keeps-send) depth 14

    Keeps-resolved :
        (job : AskJob) (found : Result PresetWithProvider) → Keeps Same (resolved w job found)
    unfolding send_error
    Keeps-resolved job (ok pp) = Keeps-answer job pp
    Keeps-resolved job (err not_found) = search (keeps_rules, Keeps-send)
    Keeps-resolved job (err (failed e)) = Keeps-raise (failed e)

    pub Keeps-process_job : (job : AskJob) → Keeps Same (process_job w job)
    unfolding process_job
    Keeps-process_job job = search (keeps_rules, Keeps-resolve_preset, Keeps-resolved)

-- The stream holds the entry `i`.
abbrev pub HasId : ℕ → List Entry → Type 0
HasId i [] = ⊥
HasId i (e ∷ es) = (e.id ≡ i) ⊎ HasId i es

-- The stream holds an entry other than `i` with the payload `p`.
abbrev pub HasOther : ℕ → Text → List Entry → Type 0
HasOther i p [] = ⊥
HasOther i p (e ∷ es) = ((e.id ≢ i) × (e.payload ≡ p)) ⊎ HasOther i p es

beq_off : (i j : ℕ) → i ≢ j → eqb i j ≡ false
beq_off i j h = ground (arith, eqb_iff i j)

HasId-append : (i : ℕ) (es fs : List Entry) → HasId i es → HasId i (es ++ fs)
HasId-append i [] fs h = elim h [ ]
HasId-append i (e ∷ es) fs (inl h) = inl h
HasId-append i (e ∷ es) fs (inr h) = inr (HasId-append i es fs h)

HasOther-append_last :
    (i : ℕ) (p : Text) (es : List Entry) (e : Entry)
    → e.id ≢ i
    → e.payload ≡ p
    → HasOther i p (es ++ e ∷ [])
HasOther-append_last i p [] e h k = inl (h, k)
HasOther-append_last i p (f ∷ es) e h k = inr (HasOther-append_last i p es e h k)

HasOther-drop_entry :
    (i : ℕ) (p : Text) (es : List Entry) → HasOther i p es → HasOther i p (drop_entry i es)
unfolding drop_entry
HasOther-drop_entry i p [] h = elim h [ ]
HasOther-drop_entry i p (e ∷ es) (inl (ne, same)) =
    rw (beq_off i e.id (λ q. ne (sym q)), drop_entry) (inl (ne, same))
HasOther-drop_entry i p (e ∷ es) (inr h) = elim (Bool-cases (eqb i e.id)) [
  | inl q ↦ rw (q, drop_entry) (HasOther-drop_entry i p es h)
  | inr q ↦ rw (q, drop_entry) (inr (HasOther-drop_entry i p es h))
]

module _ {R : Redis} (L : IsLawful R) where
  abbrev pub stream : Sys R → Commands.View
  stream s = R.view s.redis

  Keeps-ack_other :
      (i : ℕ) (p : Text) → Keeps (λ (s : Sys R). HasOther i p (stream s).entries) (ack i)
  unfolding ack
  Keeps-ack_other i p =
      Keeps-bind _ _ (Keeps-call _ _ (λ s h. rw (L.view-xack s.redis i) h))
        (λ _. Keeps-call _ _ (λ s h. rw (L.view-xdel s.redis i) (HasOther-drop_entry i p _ h)))

  module _ (json : Codec AskJob) (new_id : Text) (job : AskJob) (i : ℕ) where
    abbrev Waits : Sys R → Type 0
    Waits s = HasId i (stream s).entries × (i ≤ (stream s).last_id)

    -- The payload that `Enqueue` writes.
    abbrev again : Sys R → Text
    again s = json.marshal (stamp new_id s.clock job)

    added :
        (s : Sys R)
        → Waits s
        → let s' = record s { redis = (R.xadd s.redis (again s)).0 } in
          HasOther i (again s) (stream s').entries × HasId i (stream s').entries
    added s (h, k) = rw (L.view-xadd s.redis (again s)) (
      HasOther-append_last i (again s) (stream s).entries _ (λ e. absurd (omega arith)) refl,
      HasId-append i (stream s).entries _ h,
    )

    -- The job is in the stream again if `Enqueue` says so; if not, the entry `i` is still there.
    enqueue_outcome :
        (fates : List Fate) (s : Sys R)
        → Waits s
        → let (r, w') = enqueue json new_id job (record { sys = s; fates = fates }) in
          ((n : ℕ) × (r ≡ ok n) × HasOther i (again s) (stream w'.sys).entries)
          ⊎ ((e : Error) × (r ≡ err e) × HasId i (stream w'.sys).entries)
    unfolding enqueue call
    enqueue_outcome [] s h = inl (_, refl, (added s h).0)
    enqueue_outcome (done ∷ fates) s h = inl (_, refl, (added s h).0)
    enqueue_outcome (lost ∷ fates) s h = inr (_, refl, h.0)
    enqueue_outcome (unanswered ∷ fates) s h = inr (_, refl, (added s h).1)

  module _ (w : Worker) (new_id : Text) (msg : Message) where
    abbrev retried : ℕ → Text
    retried now = w.job_json.marshal (stamp new_id now (next_attempt msg.job))

    requeued_outcome :
        (r : Result ℕ) (p : Text) (w₀ : World R)
        → ((n : ℕ) × (r ≡ ok n) × HasOther msg.id p (stream w₀.sys).entries)
          ⊎ ((e : Error) × (r ≡ err e) × HasId msg.id (stream w₀.sys).entries)
        → let s' = (requeued w msg.id r w₀).1.sys in
          HasId msg.id (stream s').entries ⊎ HasOther msg.id p (stream s').entries
    requeued_outcome r p w₀ (inl (n, e, h)) = rw e (
        inr (
          (Keeps-bind _ _ (Keeps-attempt _ (Keeps-ack_other msg.id p)) (λ _. Keeps-pure tt)).at w₀
            h))
    requeued_outcome r p w₀ (inr (x, e, h)) = rw e (inl (unfold pure in h))

    finished_keeps_job :
        (e : Error) (w₀ : World R)
        → Waits w.job_json new_id (next_attempt msg.job) msg.id w₀.sys
        → ltb msg.job.attempts w.max_job_retries ≡ true
        → let s' = (finished w new_id msg (err e) w₀).1.sys in
          HasId msg.id (stream s').entries
          ⊎ HasOther msg.id (retried w₀.sys.clock) (stream s').entries
    unfolding ◌>>=◌ modify attempt
    finished_keeps_job e w₀ h lt = rw lt (
        requeued_outcome _ _ _ (
          enqueue_outcome w.job_json new_id (next_attempt msg.job) msg.id w₀.fates
            (count_failed w₀.sys) h))

    finished_keeps_job_from :
        (s : Sys R) (r : Result (Unit {0})) (w₁ : World R) (e : Error)
        → HasId msg.id (stream s).entries
        → msg.id ≤ (stream s).last_id
        → ltb msg.job.attempts w.max_job_retries ≡ true
        → r ≡ err e
        → w₁.sys.redis ≡ s.redis
        → w₁.sys.clock ≡ s.clock
        → let s' = (finished w new_id msg r w₁).1.sys in
          HasId msg.id (stream s').entries ⊎ HasOther msg.id (retried s.clock) (stream s').entries
    finished_keeps_job_from s r w₁ e h k lt q same_redis same_clock =
        rw (q, ← same_clock) (finished_keeps_job e w₁ (rw same_redis h, rw same_redis k) lt)

    -- If processing a delivered message fails and attempts are left, then whichever calls to
    -- Redis, the database or Telegram fail, afterwards the stream holds the message's own entry
    -- or another entry with the job's next attempt.
    pub handle_message_keeps_job :
        (w₀ : World R) (e : Error)
        → HasId msg.id (stream w₀.sys).entries
        → msg.id ≤ (stream w₀.sys).last_id
        → (process_job w msg.job w₀).0 ≡ err e
        → msg.job.attempts < w.max_job_retries
        → let s' = (handle_message w new_id msg w₀).1.sys in
          HasId msg.id (stream s').entries
          ⊎ HasOther msg.id (retried w₀.sys.clock) (stream s').entries
    unfolding handle_message ◌>>=◌ attempt
    handle_message_keeps_job w₀ e h k fails lt =
        let (same_redis, same_clock) =
          (Keeps-process_job w₀.sys.redis w₀.sys.clock w msg.job).at w₀ (refl, refl) in
        finished_keeps_job_from w₀.sys (process_job w msg.job w₀).0 (process_job w msg.job w₀).1 e h
          k (ground arith) fails same_redis same_clock
