-- ===== src/Queue/Stream.antt =====
-- internal/queue/stream.go: jobs in a Redis stream, read through a consumer group.
use hyprbot.Prelude.{ℕ, Option, none, some, List, [], ◌∷◌, Text, ℤ, if◌then◌else◌, failed}
use hyprbot.Strings.{is_blank}
use hyprbot.Encoding.Json.{Codec}
use hyprbot.Redis.{Redis}
use hyprbot.Redis.Commands.{Entry}
use hyprbot.System.{Exec, pure, raise, call, ◌>>=◌, ◌>>◌}

pub record AskJob : Type 0 where
  pub job_id : Text
  pub chat_id : ℤ
  pub chat_type : Text
  pub user_id : ℤ
  pub message_id : ℤ
  pub prompt : Text
  pub preset_name : Text
  -- `none` is the zero time.
  pub enqueued_at : Option ℕ
  pub attempts : ℕ

pub record Message : Type 0 where
  pub id : ℕ
  pub job : AskJob

abbrev some_time : Option ℕ → ℕ → Option ℕ
some_time none now = some now
some_time (some t) now = some t

-- The fields that `Enqueue` fills in: a fresh identifier, and the time.
unfoldable pub stamp : Text → ℕ → AskJob → AskJob
stamp new_id now job = record job {
  job_id = if is_blank job.job_id then new_id else job.job_id;
  enqueued_at = some_time job.enqueued_at now;
}

module _ {R : Redis} where
  -- `EnsureGroup`: BUSYGROUP is no error.
  unfoldable pub ensure_group : Exec R (Unit {0})
  ensure_group =
      call (λ s. let (redis, fresh) = R.xgroup_create s.redis in (tt, record s { redis = redis }))
        "create stream group"

  -- `Ack`: XACK, then XDEL.
  unfoldable pub ack : ℕ → Exec R (Unit {0})
  ack id =
      call (λ s. (tt, record s { redis = R.xack s.redis id })) "xack"
      >> call (λ s. (tt, record s { redis = R.xdel s.redis id })) "xdel"

module _ (json : Codec AskJob) where
  -- The loop of `Read`: an entry that is no job is passed over.
  unfoldable pub decode_entries : List Entry → List Message
  decode_entries [] = []
  decode_entries (e ∷ es) =
      let rest = decode_entries es in
      elim (json.unmarshal e.payload) [
        | none ↦ rest
        | some job ↦ record { id = e.id; job = job } ∷ rest
      ]

  module _ {R : Redis} where
    -- `Enqueue`. `new_id` is what `newJobID` draws.
    unfoldable pub enqueue : Text → AskJob → Exec R ℕ
    enqueue new_id job =
        call
          (λ s.
            let (redis, id) = R.xadd s.redis (json.marshal (stamp new_id s.clock job)) in
            (id, record s { redis = redis }))
          "enqueue"

    abbrev decoded : Option (List Entry) → Exec R (List Message)
    decoded none = raise (failed "xreadgroup")
    decoded (some es) = pure (decode_entries es)

    -- `Read`
    unfoldable pub read : ℕ → Exec R (List Message)
    unfolding decode_entries
    read count =
        call
          (λ s.
            let (redis, answer) = R.xreadgroup s.redis count in
            (answer, record s { redis = redis }))
          "xreadgroup"
        >>= λ answer. decoded answer
