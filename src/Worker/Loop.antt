-- ===== src/Worker/Loop.antt =====
-- `consumeLoop` of internal/worker/worker.go: reading messages, and what becomes of each.
pub mod Jobs
pub mod Attempts
pub mod Work
pub mod Calm
pub mod Progress
pub mod Apart
use hyprbot.Queue.Stream.{AskJob, Message, enqueue, ack, read, ensure_group}
use hyprbot.Worker.{Worker, process_job, send_error}
use hyprbot.System.{◌>>=◌, ◌>>◌, Exec, Sys, pure, attempt, modify}
use hyprbot.Redis.{Redis}
use hyprbot.Prelude.{
  pos, is_positive, ℤ, ltb, if◌then◌else◌, [], ok, ◌∷◌, err, ℕ, List, Result, text, Text, ◌+◌,
}

abbrev pub count_processed : {R : Redis} → Sys R → Sys R
count_processed s = record s {
  metrics = record s.metrics { processed_jobs = s.metrics.processed_jobs + 1 };
}

abbrev pub count_failed : {R : Redis} → Sys R → Sys R
count_failed s = record s { metrics = record s.metrics { failed_jobs = s.metrics.failed_jobs + 1 } }

abbrev pub provider_error : Text
provider_error = text "LLM provider error. Please try again later."

-- The job of the next attempt.
abbrev pub next_attempt : AskJob → AskJob
next_attempt job = record job { attempts = job.attempts + 1 }

module _ (w : Worker) {R : Redis} where
  -- Acknowledges; a failure is only logged.
  abbrev acknowledge : ℕ → Exec R (Unit {0})
  acknowledge id = attempt (ack id) >>= λ _. pure tt

  -- Behind `w.queue.Enqueue`: the message is acknowledged only if its job was enqueued again.
  abbrev pub requeued : ℕ → Result ℕ → Exec R (Unit {0})
  requeued id (err e) = pure tt
  requeued id (ok _) = acknowledge id

  -- Behind `w.processJob`. `new_id` is what `newJobID` draws if the job has no identifier.
  abbrev pub finished : Text → Message → Result (Unit {0}) → Exec R (Unit {0})
  finished new_id msg (ok _) = modify count_processed >> acknowledge msg.id
  finished new_id msg (err e) =
      modify count_failed
      >> (if ltb msg.job.attempts w.max_job_retries
          then attempt (enqueue w.job_json new_id (next_attempt msg.job)) >>= requeued msg.id
          else attempt (send_error w msg.job.chat_id msg.job.message_id provider_error) >>= λ _.
              acknowledge msg.id)

  -- The body of the loop over the messages.
  unfoldable pub handle_message : Text → Message → Exec R (Unit {0})
  handle_message new_id msg = attempt (process_job w msg.job) >>= finished new_id msg

  unfoldable pub handle_messages : Text → List Message → Exec R (Unit {0})
  handle_messages new_id [] = pure tt
  handle_messages new_id (msg ∷ msgs) = handle_message new_id msg >> handle_messages new_id msgs

  -- A failed read is logged, and the loop goes on after a pause.
  abbrev received : Text → Result (List Message) → Exec R (Unit {0})
  received new_id (err e) = pure tt
  received new_id (ok msgs) = handle_messages new_id msgs

  -- One round of `consumeLoop`.
  unfoldable pub consume : Text → Exec R (Unit {0})
  consume new_id = attempt (read w.job_json 1) >>= received new_id

  -- The loop, for as many rounds as it makes before its context ends; each round may draw an
  -- identifier of its own.
  unfoldable pub consume_loop : List Text → Exec R (Unit {0})
  consume_loop [] = pure tt
  consume_loop (new_id ∷ new_ids) = consume new_id >> consume_loop new_ids

  -- `Start`. The slots do the same, so their rounds are one loop, in the order in which they begin.
  unfoldable pub start : List Text → Exec R (Unit {0})
  start new_ids = ensure_group >> consume_loop new_ids

-- How many slots there are.
unfoldable pub slots : ℤ → ℤ
slots concurrency = if is_positive concurrency then concurrency else pos 1
