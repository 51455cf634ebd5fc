-- ===== src/Examples/Worker.antt =====
-- The theorems on internal/worker, applied.
use hyprbot.Worker.{
  Worker, process_job, resolve_preset, decrypt_optional, parse_optional, build_options,
}
use hyprbot.Worker.Loop.{handle_message, consume_loop, next_attempt, consume}
use hyprbot.Worker.Loop.Jobs.{HasId, HasOther, handle_message_keeps_job}
use hyprbot.Worker.Loop.Attempts.{IsBounded, consume_loop-IsBounded}
use hyprbot.Queue.Backlog.{Backlog}
use hyprbot.Worker.Answer.{IsAnswered, reply_to, consume_answers}
use hyprbot.Providers.Registry.{Client, openai, build, new_openai}
use hyprbot.Prelude.Map
use hyprbot.Storage.Store.{preset_with_provider, get_preset_with_provider_by_name}
use hyprbot.Storage.Tables.{PresetWithProvider}
use hyprbot.Examples.States.{short, gpt, stored, running}
use hyprbot.Worker.Loop.Progress.{consume_loop-drains}
use hyprbot.System.Calm.{calm_world}
use hyprbot.Redis.Commands.{above, View}
use hyprbot.Queue.Stream.{AskJob, Message, stamp}
use hyprbot.Redis.Memory.{memory, memory-IsLawful}
use hyprbot.Strings.{is_blank}
use hyprbot.System.{World, lost, done, ◌>>=◌, call, attempt, lift, raise}
use hyprbot.Examples.Libraries.{plain_aead, envelope_codec, job_codec}
use hyprbot.Prelude.{
  text_eq, false, ◌++◌, Text, List, ℕ, inl, refl, failed, ok, pos, [], ◌⊎◌, err, none, text, ◌≡◌,
  some, ◌∷◌, arith,
}
use hyprbot.Storage.Statements.{join_provider, find_preset}

abbrev pub worker : Worker
worker = record {
  aead = plain_aead;
  envelope_json = envelope_codec;
  job_json = job_codec;
  unmarshal_headers = λ t. some [];
  unmarshal_config = λ t. some [];
  unmarshal_params = λ t p. p;
  chat = λ c r. ok (text "42");
  crypto = record { current_key_id = text "a"; keys = [] };
  provider_retries = pos 2;
  backoff_base = pos 1;
  max_job_retries = 3;
}

abbrev question : AskJob
question = record {
  job_id = text "j";
  chat_id = pos 5;
  chat_type = text "group";
  user_id = pos 7;
  message_id = pos 9;
  prompt = text "6 * 7?";
  -- "x"
  preset_name = 120 ∷ [];
  enqueued_at = some 1;
  attempts = 1;
}

abbrev delivered : View
delivered = record {
  cells = λ k. none;
  entries = record { id = 4; payload = job_codec.marshal question } ∷ [];
  last_id = 4;
  group = some (record { last_delivered = 4; pending = 4 ∷ [] });
}

-- The database does not answer, and later the acknowledgement is lost.
abbrev faulty : World memory
faulty = record { sys = running delivered 10; fates = lost ∷ done ∷ lost ∷ [] }

abbrev message : Message
message = record { id = 4; job = question }

question_fails : (process_job worker question faulty).0 ≡ err (failed "get preset with provider")
unfolding process_job resolve_preset get_preset_with_provider_by_name is_blank
    hyprbot.Strings.trim_space ◌>>=◌ call attempt lift raise
question_fails = refl

handle_message_keeps_job_example :
    let s' = (handle_message worker (text "n") message faulty).1.sys in
    HasId 4 s'.redis.entries
    ⊎ HasOther 4 (job_codec.marshal (stamp (text "n") 10 (next_attempt question))) s'.redis.entries
handle_message_keeps_job_example =
    handle_message_keeps_job memory-IsLawful worker (text "n") message faulty
      (failed "get preset with provider") (inl refl) (omega arith) question_fails (omega arith)

delivered-IsBounded : IsBounded job_codec 3 delivered
delivered-IsBounded = rw (job_codec.unmarshal-marshal question) (omega arith, tt)

consume_loop-IsBounded_example :
    IsBounded job_codec 3 (consume_loop worker (text "m" ∷ text "n" ∷ []) faulty).1.sys.redis
consume_loop-IsBounded_example =
    consume_loop-IsBounded memory-IsLawful worker (text "m" ∷ text "n" ∷ []) faulty
      delivered-IsBounded

-- The question waits behind what the group was given.
abbrev waiting : View
waiting = record {
  cells = λ k. none;
  entries = record { id = 4; payload = job_codec.marshal question } ∷ [];
  last_id = 4;
  group = some (record { last_delivered = 2; pending = [] });
}

waiting-Backlog : Backlog waiting [] 2 waiting.entries
unfolding above
waiting-Backlog = record { group = refl; waiting = refl; rising = (omega arith, omega arith) }

abbrev four_rounds : List Text
four_rounds = text "k" ∷ text "l" ∷ text "m" ∷ text "n" ∷ []

consume_loop-drains_example :
    (last : ℕ) × Backlog
      (consume_loop worker four_rounds (calm_world (running waiting 10))).1.sys.redis
      []
      last
      []
consume_loop-drains_example =
    consume_loop-drains memory-IsLawful worker (running waiting 10) 2 waiting.entries four_rounds
      waiting-Backlog ((question, job_codec.unmarshal-marshal question), tt) (omega arith)

-- A question for a preset that the chat has.
abbrev known : AskJob
known = record question { preset_name = text "short" }

abbrev asked : View
asked = record waiting { entries = record { id = 4; payload = job_codec.marshal known } ∷ [] }

abbrev found : PresetWithProvider
found = record { preset = short; provider = gpt }

abbrev client : Client
client = openai (record {
  base_url = text "https://api.openai.com";
  api_key = [];
  headers = [];
  endpoint = text "chat_completions";
  max_retries = pos 2;
  backoff_base = pos 1;
})

known-IsAnswered : IsAnswered worker known found (text "42")
unfolding decrypt_optional parse_optional build build_options is_blank text text_eq new_openai
    Map.lookup
known-IsAnswered = record {
  api_key = [];
  raw = [];
  headers = [];
  config = [];
  client = client;
  key_read = refl;
  raw_read = refl;
  headers_read = refl;
  config_read = refl;
  built = refl;
  replied = refl;
}

asked-Backlog : Backlog asked [] 2 asked.entries
unfolding above
asked-Backlog = record { group = refl; waiting = refl; rising = (omega arith, omega arith) }

finds : preset_with_provider (pos 5) (text "short") stored ≡ ok found
unfolding preset_with_provider find_preset text_eq text join_provider
finds = refl

short_named : is_blank known.preset_name ≡ false
unfolding is_blank hyprbot.Strings.trim_space text
short_named = refl

consume_answers_example :
    let s' = (consume worker (text "n") (calm_world (running asked 10))).1.sys in
    (s'.outbox ≡ (running asked 10).outbox ++ reply_to known (text "42") ∷ [])
    × (s'.db ≡ (running asked 10).db)
    × Backlog s'.redis [] 4 []
consume_answers_example =
    consume_answers worker known found (text "short") (text "42") known-IsAnswered memory-IsLawful
      (text "n") (running asked 10) 2 _ [] asked-Backlog (job_codec.unmarshal-marshal known)
      (inl (short_named, refl)) finds
