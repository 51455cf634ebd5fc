-- ===== src/Providers/Openai.antt =====
-- internal/providers/openai_compat/client.go: the request of a chat, and how its answer is read.
use hyprbot.Providers.Http.{HttpRequest, set_header, set_headers}
use hyprbot.Providers.Registry.{OpenaiConfig}
use hyprbot.Providers.Request.{ChatRequest}
use hyprbot.Providers.Attempts.{Reply, chat_from}
use hyprbot.Encoding.Value.{
  Value, Values, Fields, null, bool, num, str, arr, obj, nil, cons, end, field, at_key, as_string,
  as_fields,
}
use hyprbot.Strings.{trim_space, to_lower, is_blank, join_lines}
use hyprbot.Config.{strip_suffix, or_same}
use hyprbot.Strings.Decimal.{format_int}
use hyprbot.Prelude.Map.{Map}
use hyprbot.Prelude.{
  clamped, ◌++◌, is_empty, true, false, failed, if◌then◌else◌, is_positive, ◌==◌, String, text,
  Bool, ℕ, Result, Option, Text, List, [], ◌∷◌, none, some, ok, err, ◌>>=◌, ◌||◌, text_has_eq,
}

-- A parsed URL: its path, and its text with another path.
pub record Url : Type 0 where
  pub path : Text
  pub with_path : Text → Text

-- A choice of a chat completion, and a response, as `json.Unmarshal` fills the structs in.
pub record Choice : Type 0 where
  pub content : Value
  pub text : Text

pub record ResponseBody : Type 0 where
  pub output_text : Text
  pub output : List (List Text)

-- The libraries: `url.Parse`, `json.Marshal`, `json.Unmarshal` into the two structs, the canonical form of
-- a header's name, and the test of a float for being positive.
pub record Library : Type 0 where
  pub parse_url : Text → Option Url
  pub marshal : Value → Option Text
  pub decode_chat : Text → Option (List Choice)
  pub decode_response : Text → Option ResponseBody
  pub canonical : Text → Text
  pub is_positive_float : Text → Bool

-- `isResponsesEndpoint`
unfoldable pub is_responses_endpoint : Text → Bool
is_responses_endpoint v =
    let t = to_lower (trim_space v) in t == text "responses" || t == text "/v1/responses"

-- `strings.HasSuffix`
unfoldable pub has_suffix : Text → Text → Bool
unfolding strip_suffix
has_suffix suffix s = elim (strip_suffix suffix s) [ none ↦ false | some _ ↦ true ]

unfoldable pub is_endpoint_url : Text → Bool
unfolding has_suffix
is_endpoint_url base =
    has_suffix (text "/chat/completions") base || has_suffix (text "/responses") base

-- The path that is put behind the base URL's.
unfoldable pub endpoint_path : Text → Text
unfolding is_responses_endpoint
endpoint_path endpoint =
    if is_responses_endpoint endpoint then text "/responses" else text "/chat/completions"

abbrev pub url_at : Text → Option Url → Result Text
url_at endpoint none = err (failed "parse base url")
url_at endpoint (some u) =
    ok (u.with_path (or_same u.path (strip_suffix (text "/") u.path) ++ endpoint_path endpoint))

-- A field that is there only under a condition.
abbrev pub field_if : Bool → Text → Value → Fields → Fields
field_if b k v fs = if b then field k v fs else fs

abbrev pub message : Text → Text → Value
message role content =
    obj (field (text "role") (str role) (field (text "content") (str content) end))

-- The elements of a list of contents that have a text.
abbrev pub text_parts_of : Option Text → List Text → List Text
text_parts_of none parts = parts
text_parts_of (some t) parts = t ∷ parts

abbrev pub text_of_fields : Option Fields → Option Text
text_of_fields none = none
text_of_fields (some fs) = as_string (at_key (text "text") fs)

unfoldable pub text_parts : Values → List Text
text_parts nil = []
text_parts (cons v vs) = text_parts_of (text_of_fields (as_fields v)) (text_parts vs)

-- `anyToText`
unfoldable pub any_to_text : Value → Text
unfolding text_parts
any_to_text null = []
any_to_text (bool b) = []
any_to_text (num n) = []
any_to_text (str t) = t
any_to_text (arr vs) = join_lines (text_parts vs)
any_to_text (obj fs) = []

abbrev pub content_or_error : Text → Result Text
content_or_error t =
    if is_blank t then err (failed "missing message content in chat completion response") else ok t

abbrev pub first_choice : Option (List Choice) → Result Text
first_choice none = err (failed "decode chat completion response")
first_choice (some []) = err (failed "empty choices in chat completion response")
first_choice (some (c ∷ cs)) =
    if is_empty c.text then content_or_error (any_to_text c.content) else ok c.text

abbrev pub first_output : List (List Text) → Result Text
first_output [] = err (failed "missing output text in responses api response")
first_output ([] ∷ out) = err (failed "missing output text in responses api response")
first_output ((t ∷ ts) ∷ out) =
    if is_blank t then err (failed "missing output text in responses api response") else ok t

abbrev pub response_text : Option ResponseBody → Result Text
response_text none = err (failed "decode responses api response")
response_text (some r) = if is_blank r.output_text then first_output r.output else ok r.output_text

module _ (l : Library) (c : OpenaiConfig) where
  -- `buildEndpointURL`
  unfoldable pub build_endpoint_url : Result Text
  unfolding is_endpoint_url endpoint_path
  build_endpoint_url =
      let base = trim_space c.base_url in
      if is_empty base
      then err (failed "base url is empty")
      else if is_endpoint_url base
      then ok base
      else url_at c.endpoint (l.parse_url base)

  abbrev options : Text → ChatRequest → Fields
  options max_tokens req =
      field_if (is_positive req.max_tokens) max_tokens (num (format_int req.max_tokens)) (
        field_if (l.is_positive_float req.temperature) (text "temperature") (num req.temperature)
          end)

  -- The payload of the responses API, and of chat completions.
  unfoldable pub responses_payload : ChatRequest → Value
  responses_payload req = obj (
      field (text "model") (str req.model) (
        field (text "input")
          (arr (
            cons (message (text "system") req.system_prompt)
              (cons (message (text "user") req.user_prompt) nil)))
          (options (text "max_output_tokens") req)))

  unfoldable pub chat_messages : ChatRequest → Values
  chat_messages req =
      let user = cons (message (text "user") req.user_prompt) nil in
      if is_blank req.system_prompt
      then user
      else cons (message (text "system") req.system_prompt) user

  unfoldable pub chat_payload : ChatRequest → Value
  unfolding chat_messages
  chat_payload req = obj (
      field (text "model") (str req.model)
        (field (text "messages") (arr (chat_messages req)) (options (text "max_tokens") req)))

  abbrev payload_text : String → Option Text → Result Text
  payload_text label none = err (failed label)
  payload_text label (some b) = ok b

  -- `buildPayload`: the body, and the URL.
  unfoldable pub build_payload : ChatRequest → Result (Text × Text)
  unfolding build_endpoint_url responses_payload chat_payload
  build_payload req = build_endpoint_url >>= λ url.
      (if is_responses_endpoint c.endpoint
        then payload_text "marshal responses payload" (l.marshal (responses_payload req))
        else payload_text "marshal chat completion payload" (l.marshal (chat_payload req)))
      >>= λ body. ok (body, url)

  -- The headers of `callOnce`.
  unfoldable pub openai_headers : Map Text Text
  openai_headers =
      let plain = set_header l.canonical (text "Content-Type") (text "application/json") [] in
      set_headers l.canonical c.api_key c.headers (
        if is_blank c.api_key
        then plain
        else set_header l.canonical (text "Authorization") (text "Bearer " ++ c.api_key) plain)

  -- How `callOnce` reads a body.
  unfoldable pub parse_body : Text → Result Text
  unfolding is_responses_endpoint
  parse_body body =
      if is_responses_endpoint c.endpoint
      then response_text (l.decode_response body)
      else first_choice (l.decode_chat body)

  -- `send` is what a request comes to, by the number of the attempt.
  module _ (send : HttpRequest → ℕ → Reply) where
    abbrev pub chat_with : Result (Text × Text) → Result Text × List ℕ
    chat_with (err e) = (err e, [])
    chat_with (ok (body, url)) =
        chat_from parse_body (clamped c.backoff_base)
          (send (record { method = text "POST"; url = url; headers = openai_headers; body = body }))
          0 (clamped c.max_retries)

    -- `Chat`
    unfoldable pub chat : ChatRequest → Result Text × List ℕ
    unfolding build_payload openai_headers parse_body
    chat req = chat_with (build_payload req)
