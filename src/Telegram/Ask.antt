-- ===== src/Telegram/Ask.antt =====
-- `ask` and `ai` of internal/telegram/handlers.go: questions become jobs in the stream.
pub mod Limits
pub mod Jobs
use hyprbot.Prelude.{
  ok, text, err, ◌||◌, none, is_empty, ℕ, some, if◌then◌else◌, Result, [], ◌+◌, Text, Option,
}
use hyprbot.System.{modify, attempt, pure, ◌>>=◌, ◌>>◌, Exec, Sys}
use hyprbot.Telegram.Service.{user_id, ensure_chat_of, reply, allow_rate, Service}
use hyprbot.Telegram.Context.{Context, Incoming, ChatInfo}
use hyprbot.Telegram.Commands.{command_remainder, split_first_word}
use hyprbot.Redis.{Redis}
use hyprbot.Queue.Stream.{enqueue, AskJob}
use hyprbot.Strings.{trim_space}

abbrev pub count_enqueued : {R : Redis} → Sys R → Sys R
count_enqueued s = record s {
  metrics = record s.metrics { enqueued_jobs = s.metrics.enqueued_jobs + 1 };
}

-- The job that a message asks for. `Enqueue` fills in its identifier and its time.
abbrev pub job_of : Context → ChatInfo → Incoming → Text → Text → AskJob
job_of ctx chat msg preset prompt = record {
  job_id = [];
  chat_id = chat.id;
  chat_type = chat.kind;
  user_id = user_id ctx;
  message_id = msg.message_id;
  prompt = prompt;
  preset_name = preset;
  enqueued_at = none;
  attempts = 0;
}

module _ (v : Service) {R : Redis} (new_id : Text) where
  abbrev pub enqueued : Context → Result ℕ → Exec R (Unit {0})
  enqueued ctx (err e) = reply ctx (text "Queue is unavailable right now.")
  enqueued ctx (ok _) = modify count_enqueued >> reply ctx (text "Accepted. Processing in queue.")

  -- The common end of `ask` and `ai`.
  unfoldable pub submit : Context → ChatInfo → Incoming → Text → Text → Exec R (Unit {0})
  submit ctx chat msg preset prompt = allow_rate v chat.id (user_id ctx) ctx >>= λ allowed.
      if allowed
      then ensure_chat_of msg
        >> (attempt (enqueue v.job_json new_id (job_of ctx chat msg preset prompt))
            >>= enqueued ctx)
      else pure tt

  abbrev pub ask_message : Context → ChatInfo → Incoming → Exec R (Unit {0})
  ask_message ctx chat msg =
      let prompt = trim_space (command_remainder msg.text) in
      if is_empty prompt
      then reply ctx (text "Usage: /ask <text>")
      else submit ctx chat msg [] prompt

  abbrev pub ask_in : Context → Option Incoming → Option ChatInfo → Exec R (Unit {0})
  ask_in ctx none c = pure tt
  ask_in ctx (some msg) none = pure tt
  ask_in ctx (some msg) (some chat) = ask_message ctx chat msg

  -- `ask`
  unfoldable pub ask : Context → Exec R (Unit {0})
  ask ctx = ask_in ctx ctx.effective_message ctx.effective_chat

  abbrev pub ai_words : Context → ChatInfo → Incoming → Text × Text → Exec R (Unit {0})
  ai_words ctx chat msg (preset, prompt) =
      if is_empty preset || is_empty prompt
      then reply ctx (text "Usage: /ai <preset> <text>")
      else submit ctx chat msg preset prompt

  abbrev pub ai_in : Context → Option Incoming → Option ChatInfo → Exec R (Unit {0})
  ai_in ctx none c = pure tt
  ai_in ctx (some msg) none = pure tt
  ai_in ctx (some msg) (some chat) =
      ai_words ctx chat msg (split_first_word (trim_space (command_remainder msg.text)))

  -- `ai`
  unfoldable pub ai : Context → Exec R (Unit {0})
  ai ctx = ai_in ctx ctx.effective_message ctx.effective_chat
