-- ===== src/Worker/Loop/Apart.antt =====
-- `consumeLoop` of internal/worker/worker.go, and what it leaves alone.
use hyprbot.Worker.{Worker, process_job, resolve_preset, answer, resolved, send, send_error}
use hyprbot.Worker.Loop.{
  handle_message, handle_messages, consume, received, finished, requeued, next_attempt,
}
use hyprbot.Telegram.Apart.Questions.{Keeps-enqueue}
use hyprbot.Queue.Stream.{AskJob, Message, ack, read, ensure_group}
use hyprbot.Storage.Store.{get_preset_with_provider_by_name, get_default_preset_with_provider}
use hyprbot.Storage.Tables.{PresetWithProvider}
use hyprbot.System.Apart.{IsApart, Keeps-call_redis, Keeps-query}
use hyprbot.System.{Sys}
use hyprbot.System.Keeps.{
  Keeps, Keeps-call, Keeps-attempt, Keeps-bind, Keeps-pure, Keeps-raise, Keeps-if, Keeps-modify,
  keeps_rules,
}
use hyprbot.Prelude.{
  not_found, ltb, [], failed, ◌∷◌, err, List, ok, String, Text, Result, ℕ, ℤ, none, some,
}
use hyprbot.Redis.{Redis}

module _ {R : Redis} {P : Sys R → Type 0} ⦃a : IsApart P⦄ where
  Keeps-ack : (i : ℕ) → Keeps P (ack i)
  unfolding ack
  Keeps-ack i = Keeps-bind _ _ (Keeps-call_redis _ _) (λ x. Keeps-call_redis _ _)

  pub Keeps-ensure_group : Keeps P ensure_group
  unfolding ensure_group
  Keeps-ensure_group = Keeps-call _ _ (λ s h. a.outside s _ _ _ _ _ h)

  module _ (w : Worker) where
    Keeps-resolve_preset : (c : ℤ) (name : Text) → Keeps P (resolve_preset w c name)
    unfolding resolve_preset get_default_preset_with_provider get_preset_with_provider_by_name
    Keeps-resolve_preset c name = search (keeps_rules, Keeps-query)

    Keeps-send : (c m : ℤ) (t : Text) (label : String) → Keeps P (send w c m t label)
    unfolding send
    Keeps-send c m t label = Keeps-call _ _ (λ s h. a.outside s _ _ _ _ _ h)

    Keeps-answer : (job : AskJob) (pp : PresetWithProvider) → Keeps P (answer w job pp)
    unfolding answer
    Keeps-answer job pp = search (keeps_rules, Keeps-call, Keeps-send) depth 14

    Keeps-resolved :
        (job : AskJob) (found : Result PresetWithProvider) → Keeps P (resolved w job found)
    unfolding send_error
    Keeps-resolved job (ok pp) = Keeps-answer job pp
    Keeps-resolved job (err not_found) = search (keeps_rules, Keeps-send)
    Keeps-resolved job (err (failed e)) = Keeps-raise (failed e)

    Keeps-process_job : (job : AskJob) → Keeps P (process_job w job)
    unfolding process_job
    Keeps-process_job job = search (keeps_rules, Keeps-resolve_preset, Keeps-resolved)

    Keeps-requeued : (i : ℕ) (r : Result ℕ) → Keeps P (requeued w i r)
    Keeps-requeued i (ok n) = search (keeps_rules, Keeps-ack)
    Keeps-requeued i (err e) = Keeps-pure tt

    Keeps-send_error : (c m : ℤ) (t : Text) → Keeps P (send_error w c m t)
    unfolding send_error
    Keeps-send_error c m t = Keeps-send c m t _

    Keeps-finished :
        (new_id : Text) (msg : Message) (r : Result (Unit {0})) → Keeps P (finished w new_id msg r)
    Keeps-finished new_id msg (ok x) =
        Keeps-bind _ _ (Keeps-modify _ (λ s h. a.outside s _ _ _ _ _ h))
          (λ y. search (keeps_rules, Keeps-ack))
    Keeps-finished new_id msg (err e) =
        Keeps-bind _ _ (Keeps-modify _ (λ s h. a.outside s _ _ _ _ _ h)) (λ y.
          Keeps-if (ltb msg.job.attempts w.max_job_retries) _ _
            (λ lt.
              Keeps-bind _ _ (Keeps-attempt _ (Keeps-enqueue _ new_id (next_attempt msg.job)))
                (λ r. Keeps-requeued msg.id r))
            (λ ge. search (keeps_rules, Keeps-ack, Keeps-send_error)))

    Keeps-handle_messages :
        (new_id : Text) (msgs : List Message) → Keeps P (handle_messages w new_id msgs)
    unfolding handle_messages handle_message
    Keeps-handle_messages new_id [] = Keeps-pure tt
    Keeps-handle_messages new_id (msg ∷ msgs) =
        Keeps-bind _ _ (search (keeps_rules, Keeps-process_job, Keeps-finished))
          (λ x. Keeps-handle_messages new_id msgs)

    Keeps-read : (n : ℕ) → Keeps P (read w.job_json {R = R} n)
    unfolding read
    Keeps-read n =
        Keeps-bind _ _ (Keeps-call_redis _ _)
          (elim [ none ↦ Keeps-raise _ | some es ↦ Keeps-pure _ ])

    Keeps-received : (new_id : Text) (r : Result (List Message)) → Keeps P (received w new_id r)
    Keeps-received new_id (ok msgs) = Keeps-handle_messages new_id msgs
    Keeps-received new_id (err e) = Keeps-pure tt

    -- One round of the loop.
    pub Keeps-consume : (new_id : Text) → Keeps P (consume w new_id)
    unfolding consume
    Keeps-consume new_id = search (keeps_rules, Keeps-read, Keeps-received)
