-- ===== src/Worker/Answer.antt =====
-- What a round of internal/worker/worker.go does with a job that its provider answers.
use hyprbot.Worker.{
  Worker, process_job, resolve_preset, answer, send, decrypt_optional, parse_optional,
  build_options, chat_request, reply_text, reply_parameters,
}
use hyprbot.Worker.Loop.{handle_messages, handle_message, consume, count_processed}
use hyprbot.Providers.Registry.{build, Client, Any}
use hyprbot.Storage.Tables.{Db, PresetWithProvider}
use hyprbot.Queue.Stream.{decode_entries, read, ack, AskJob, Message}
use hyprbot.System.{pure, modify, Sys, lift, call, attempt, ◌>>=◌, Outgoing}
use hyprbot.System.Calm.{calm_world}
use hyprbot.Redis.{IsLawful, Redis}
use hyprbot.Prelude.Map.{Map}
use hyprbot.Prelude.{
  ◌∙◌, some, List, inr, sym, true, inl, ◌⊎◌, false, ℕ, ◌≡◌, refl, ok, [], ◌∷◌, ◌++◌, Text,
}
use hyprbot.Storage.Store.{
  default_name, get_default_preset_with_provider, preset_with_provider,
  get_preset_with_provider_by_name,
}
use hyprbot.Strings.{is_blank}
use hyprbot.Redis.Commands.{Entry, xreadgroup}
use hyprbot.Storage.Statements.{find_chat}
use hyprbot.Queue.Backlog.{acked-Backlog, read-first, Backlog}

-- The provider answers the job with `t`: the secrets can be decrypted, the headers and the configuration
-- can be read, and the client that is built for them gets an answer.
pub record IsAnswered (w : Worker) (job : AskJob) (pp : PresetWithProvider) (t : Text)
    : Type 0 where
  pub api_key : Text
  pub raw : Text
  pub headers : Map Text Text
  pub config : Map Text Any
  pub client : Client
  pub key_read : decrypt_optional w pp.provider.enc_api_key ≡ ok api_key
  pub raw_read : decrypt_optional w pp.provider.enc_headers_json ≡ ok raw
  pub headers_read : parse_optional "parse headers json" [] w.unmarshal_headers raw ≡ ok headers
  pub config_read :
      parse_optional "parse provider config" [] w.unmarshal_config pp.provider.config_json
      ≡ ok config
  pub built : build (build_options w pp.provider api_key headers config) ≡ ok client
  pub replied : w.chat client (chat_request w pp.preset job.prompt) ≡ ok t

-- The message that is sent.
abbrev pub reply_to : AskJob → Text → Outgoing
reply_to job t = record {
  chat_id = job.chat_id;
  reply_to = reply_parameters job.message_id;
  keyboard = [];
  text = reply_text t;
}

abbrev pub sent : {R : Redis} → AskJob → Text → Sys R → Sys R
sent job t s = record s { outbox = s.outbox ++ reply_to job t ∷ [] }

module _ {R : Redis} (w : Worker) (job : AskJob) (pp : PresetWithProvider) (t : Text)
    (a : IsAnswered w job pp t) where
  answer_sends : (s : Sys R) → answer w job pp (calm_world s) ≡ (ok tt, calm_world (sent job t s))
  unfolding answer lift call ◌>>=◌ send
  answer_sends s =
      rw (a.key_read, a.raw_read, a.headers_read, a.config_read, a.built, a.replied) refl

-- The name of the preset that a job is answered with: its own, or the default of its chat.
abbrev pub Chosen : AskJob → Db → Text → Type 0
Chosen job db name =
    ((is_blank job.preset_name ≡ false) × (name ≡ job.preset_name))
    ⊎ ((is_blank job.preset_name ≡ true)
        × (default_name (find_chat job.chat_id db.chats) ≡ ok name))

module _ {R : Redis} (w : Worker) (job : AskJob) (pp : PresetWithProvider) (name : Text) where
  -- The preset is found, and nothing changes.
  resolve_preset_finds :
      (s : Sys R)
      → Chosen job s.db name
      → preset_with_provider job.chat_id name s.db ≡ ok pp
      → resolve_preset w job.chat_id job.preset_name (calm_world s) ≡ (ok pp, calm_world s)
  unfolding resolve_preset get_preset_with_provider_by_name get_default_preset_with_provider lift
      call ◌>>=◌
  resolve_preset_finds s (inl (e, q)) h = rw (e, sym q, h) refl
  resolve_preset_finds s (inr (e, q)) h = rw (e, q, h) refl

  module _ (t : Text) (a : IsAnswered w job pp t) where
    process_job_sends :
        (s : Sys R)
        → Chosen job s.db name
        → preset_with_provider job.chat_id name s.db ≡ ok pp
        → process_job w job (calm_world s) ≡ (ok tt, calm_world (sent job t s))
    unfolding process_job attempt ◌>>=◌
    process_job_sends s c h = rw (resolve_preset_finds s c h) (answer_sends w job pp t a s)

    handle_message_sends :
        (new_id : Text) (id : ℕ) (s : Sys R)
        → Chosen job s.db name
        → preset_with_provider job.chat_id name s.db ≡ ok pp
        → let s' = count_processed (sent job t s) in
          handle_message w new_id (record { id = id; job = job }) (calm_world s)
          ≡ (ok tt, calm_world (record s' { redis = R.xdel (R.xack s.redis id) id }))
    unfolding handle_message attempt ◌>>=◌ ack modify call pure
    handle_message_sends new_id id s c h = rw (process_job_sends s c h) refl

    module _ (new_id : Text) (s : Sys R) (e : Entry)
        (given : (R.xreadgroup s.redis 1).1 ≡ some (e ∷ []))
        (is_job : w.job_json.unmarshal e.payload ≡ some job) where
      abbrev after_read : Sys R
      after_read = record s { redis = (R.xreadgroup s.redis 1).0 }

      abbrev message : Message
      message = record { id = e.id; job = job }

      read_gives : read w.job_json 1 (calm_world s) ≡ (ok (message ∷ []), calm_world after_read)
      unfolding read call pure ◌>>=◌ decode_entries
      read_gives = rw given (rw (is_job, decode_entries) refl)

      consume_sends :
          Chosen job s.db name
          → preset_with_provider job.chat_id name s.db ≡ ok pp
          → let s' = count_processed (sent job t s) in
            let r = (R.xreadgroup s.redis 1).0 in
            consume w new_id (calm_world s)
            ≡ (ok tt, calm_world (record s' { redis = R.xdel (R.xack r e.id) e.id }))
      unfolding consume handle_messages attempt ◌>>=◌ pure
      consume_sends c h = rw read_gives (rw (handle_message_sends new_id e.id after_read c h) refl)

    -- If the first entry that waits in the stream is a job, none is pending, its preset (its
    -- own, or the default of its chat) is found with its provider, the provider's secrets and
    -- configuration can be read, and the provider answers, then one round of a worker in which
    -- no call fails sends exactly one message, the trimmed answer to the chat and the message of
    -- the job, leaves the database as it is, and takes exactly this entry from those that wait,
    -- with none pending.
    pub consume_answers :
        (L : IsLawful R) (new_id : Text) (s : Sys R) (last : ℕ) (e : Entry) (es : List Entry)
        → Backlog (R.view s.redis) [] last (e ∷ es)
        → w.job_json.unmarshal e.payload ≡ some job
        → Chosen job s.db name
        → preset_with_provider job.chat_id name s.db ≡ ok pp
        → let s' = (consume w new_id (calm_world s)).1.sys in
          (s'.outbox ≡ s.outbox ++ reply_to job t ∷ [])
          × (s'.db ≡ s.db)
          × Backlog (R.view s'.redis) [] e.id es
    consume_answers L new_id s last e es b q c h =
        let (after, answer) = read-first (R.view s.redis) last e es b in
        let given = L.answer-xreadgroup s.redis 1 ∙ answer in
        rw (consume_sends new_id s e given q c h) (
          refl,
          refl,
          rw
              (
                L.view-xdel (R.xack (R.xreadgroup s.redis 1).0 e.id) e.id,
                L.view-xack (R.xreadgroup s.redis 1).0 e.id,
                L.view-xreadgroup s.redis 1,
              )
              (acked-Backlog (xreadgroup (R.view s.redis) 1).0 e.id es after),
        )
