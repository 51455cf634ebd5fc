-- ===== src/Worker.antt =====
-- internal/worker/worker.go: jobs from the stream, answered by a provider and retried.
pub mod Loop
pub mod Replies
pub mod Answer
use hyprbot.Prelude.Map
use hyprbot.Prelude.Map.{Map}
use hyprbot.Prelude.{
  clamped, take, length, none, not_found, some, failed, ℕ, ltb, is_positive, err, ◌∷◌, [], is_empty,
  text, if◌then◌else◌, ok, ◌++◌, Option, pos, Result, String, Bool, true, false, Text, ℤ,
  text_has_eq,
}
use hyprbot.System.{◌>>=◌, ◌>>◌, Exec, pure, raise, lift, call, attempt}
use hyprbot.Crypto.Aead.{Aead}
use hyprbot.Crypto.Manager.{Envelope, Manager, unmarshal_encrypted_string}
use hyprbot.Encoding.Json.{Codec}
use hyprbot.Storage.Tables.{PresetWithProvider, Preset, ProviderInstance}
use hyprbot.Strings.{is_blank, trim_space}
use hyprbot.Redis.{Redis}
use hyprbot.Queue.Stream.{AskJob}
use hyprbot.Providers.Request.{ChatRequest}
use hyprbot.Providers.Registry.{build, BuildOptions, Client, Any}
use hyprbot.Storage.Store.{get_preset_with_provider_by_name, get_default_preset_with_provider}

-- presetParams
pub record PresetParams : Type 0 where
  pub max_tokens : ℤ
  pub temperature : Text
  pub allow_tools : Bool

-- What a worker is built with, and the libraries that it calls. `chat` is the `Chat` method of a
-- client; `unmarshal_params` overwrites the fields that the JSON text gives, as far as it can be read.
pub record Worker : Type 0 where
  pub aead : Aead
  pub envelope_json : Codec Envelope
  pub job_json : Codec AskJob
  pub unmarshal_headers : Text → Option (Map Text Text)
  pub unmarshal_config : Text → Option (Map Text Any)
  pub unmarshal_params : Text → PresetParams → PresetParams
  pub chat : Client → ChatRequest → Result Text
  pub crypto : Manager
  pub provider_retries : ℤ
  pub backoff_base : ℤ
  pub max_job_retries : ℕ

-- `New`: `w` holds what is taken over as it is. Durations are in nanoseconds.
unfoldable pub new_worker : Worker → ℤ → ℤ → Worker
new_worker w backoff_base max_job_retries = record w {
  backoff_base = if is_positive backoff_base then backoff_base else pos 400000000;
  max_job_retries = clamped max_job_retries;
}

-- The reply goes to the message of the job, if it has one.
unfoldable pub reply_parameters : ℤ → Option ℤ
reply_parameters id = if is_positive id then some id else none

-- What is sent of the model's answer: trimmed, never empty, at most 4000 code points.
unfoldable pub reply_text : Text → Text
reply_text answer =
    let t = trim_space answer in
    if is_empty t
    then text "Provider returned an empty response."
    else if ltb 4000 (length t)
    then take 4000 t
    else t

-- `fmt.Errorf("…: %w", err)`
abbrev wrap : {A : Type 0} → String → Result A → Result A
wrap label (ok a) = ok a
wrap label (err not_found) = err not_found
wrap label (err (failed e)) = err (failed label)

-- `json.Unmarshal` of a text that is not blank; a blank one leaves the empty map.
unfoldable pub parse_optional : {A : Type 0} → String → A → (Text → Option A) → Text → Result A
parse_optional label empty unmarshal raw =
    if is_blank raw
    then ok empty
    else elim (unmarshal raw) [ none ↦ err (failed label) | some a ↦ ok a ]

abbrev pub default_params : PresetParams
default_params = record { max_tokens = pos 1024; temperature = text "0.7"; allow_tools = false }

abbrev pub no_preset : Text
no_preset = text "Preset not found. Configure /ai_default or use /ai <preset>."

module _ (w : Worker) where
  decrypt_text : Text → Result Text
  decrypt_text raw =
      if is_blank raw then ok [] else unmarshal_encrypted_string w.aead w.envelope_json w.crypto raw

  -- `decryptOptional`
  unfoldable pub decrypt_optional : Option Text → Result Text
  unfolding decrypt_text
  decrypt_optional none = ok []
  decrypt_optional (some raw) = decrypt_text raw

  unfoldable pub params_of : Preset → PresetParams
  params_of p =
      let raw = trim_space p.params_json in
      if is_empty raw then default_params else w.unmarshal_params raw default_params

  unfoldable pub chat_request : Preset → Text → ChatRequest
  unfolding params_of
  chat_request p prompt =
      let params = params_of p in
      record {
        model = p.model;
        system_prompt = p.system_prompt;
        user_prompt = prompt;
        max_tokens = params.max_tokens;
        temperature = params.temperature;
        allow_tools = params.allow_tools;
      }

  unfoldable pub build_options :
      ProviderInstance → Text → Map Text Text → Map Text Any → BuildOptions
  build_options p api_key headers config = record {
    kind = p.kind;
    base_url = p.base_url;
    api_key = api_key;
    headers = headers;
    config = config;
    max_retries = w.provider_retries;
    backoff_base = w.backoff_base;
  }

  module _ {R : Redis} where
    -- `SendMessageWithContext`
    unfoldable pub send : ℤ → ℤ → Text → String → Exec R (Unit {0})
    send chat_id reply_to t label =
        call
          (λ s. (
            tt,
            record s {
              outbox =
                  s.outbox
                  ++ record {
                    chat_id = chat_id;
                    reply_to = reply_parameters reply_to;
                    keyboard = [];
                    text = t;
                  }
                    ∷ [];
            },
          ))
          label

    -- `sendError`
    unfoldable pub send_error : ℤ → ℤ → Text → Exec R (Unit {0})
    send_error chat_id reply_to t = send chat_id reply_to t "send error"

    -- `resolvePreset`
    unfoldable pub resolve_preset : ℤ → Text → Exec R PresetWithProvider
    resolve_preset chat_id preset_name =
        if is_blank preset_name
        then get_default_preset_with_provider chat_id
        else get_preset_with_provider_by_name chat_id preset_name

    -- The part of `processJob` behind the lookup of the preset. The request to the provider may fail
    -- on the way, and the provider may answer with an error.
    unfoldable pub answer : AskJob → PresetWithProvider → Exec R (Unit {0})
    unfolding parse_optional
    answer job pp = do
      api_key ← lift (wrap "decrypt api key" (decrypt_optional pp.provider.enc_api_key))
      raw ← lift (wrap "decrypt headers" (decrypt_optional pp.provider.enc_headers_json))
      headers ← lift (parse_optional "parse headers json" [] w.unmarshal_headers raw)
      config ←
          lift
            (parse_optional "parse provider config" [] w.unmarshal_config pp.provider.config_json)
      client ←
          lift (wrap "build provider" (build (build_options pp.provider api_key headers config)))
      response ← call (λ s. (w.chat client (chat_request pp.preset job.prompt), s)) "provider chat"
      t ← lift (wrap "provider chat" response)
      send job.chat_id job.message_id (reply_text t) "send telegram response"

    abbrev pub resolved : AskJob → Result PresetWithProvider → Exec R (Unit {0})
    resolved job (ok pp) = answer job pp
    resolved job (err not_found) =
        attempt (send_error job.chat_id job.message_id no_preset) >>= λ _. pure tt
    resolved job (err (failed e)) = raise (failed e)

    -- `processJob`
    unfoldable pub process_job : AskJob → Exec R (Unit {0})
    process_job job = attempt (resolve_preset job.chat_id job.preset_name) >>= resolved job
