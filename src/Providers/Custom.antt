-- ===== src/Providers/Custom.antt =====
-- internal/providers/custom_http/client.go: the request of a chat, and how its answer is read.
use hyprbot.Providers.Http.{HttpRequest, set_header, set_headers}
use hyprbot.Providers.Registry.{CustomConfig}
use hyprbot.Providers.Request.{ChatRequest}
use hyprbot.Providers.Attempts.{Reply, unbuilt, chat_from}
use hyprbot.Encoding.Value.{
  Value, Fields, null, bool, num, str, arr, obj, end, field, at_key, as_string, as_fields, as_first,
}
use hyprbot.Strings.{trim_space, is_blank}
use hyprbot.Strings.Decimal.{format_int}
use hyprbot.Prelude.Map.{Map}
use hyprbot.Prelude.{
  clamped, is_empty, List, if◌then◌else◌, failed, text, ℕ, String, Result, Text, Option, [], none,
  some, ok, err, text_has_eq,
}

-- The libraries: `json.Marshal`, `text/template` over the values of a request, `json.Unmarshal` into
-- `any`, and the canonical form of a header's name. `render` is `none` where the template cannot be
-- parsed or executed.
pub record Library : Type 0 where
  pub marshal : Value → Option Text
  pub render : Text → Fields → Option Text
  pub unmarshal : Text → Option Value
  pub canonical : Text → Text

-- `json.Unmarshal` into a `map[string]any`: JSON's null leaves the map empty.
abbrev pub map_of : Value → Option Fields
map_of null = some end
map_of (bool b) = none
map_of (num n) = none
map_of (str t) = none
map_of (arr xs) = none
map_of (obj fs) = some fs

-- `v.(string)` that is not blank.
abbrev pub filled_of : Option Text → Option Text
filled_of none = none
filled_of (some t) = if is_blank t then none else some t

unfoldable pub filled : Value → Option Text
filled v = filled_of (as_string v)

abbrev pub or_else : {A : Type 0} → Option A → Option A → Option A
or_else none o = o
or_else (some a) o = some a

abbrev pub in_fields : {A : Type 0} → (Fields → Option A) → Option Fields → Option A
in_fields f none = none
in_fields f (some fs) = f fs

abbrev pub in_value : {A : Type 0} → (Value → Option A) → Option Value → Option A
in_value f none = none
in_value f (some v) = f v

-- A text under a key of the first element of an array.
abbrev pub text_at : Text → Value → Option Text
text_at k v = in_fields (λ fs. filled (at_key k fs)) (as_fields v)

-- choices[0].message.content, or choices[0].text
unfoldable pub choice_text : Fields → Option Text
unfolding filled
choice_text simple =
    in_value
      (λ c.
        in_fields
          (λ c0.
            or_else (text_at (text "content") (at_key (text "message") c0))
              (filled (at_key (text "text") c0)))
          (as_fields c))
      (as_first (at_key (text "choices") simple))

-- output[0].content[0].text
unfoldable pub output_text : Fields → Option Text
unfolding filled
output_text simple =
    in_value
      (λ o.
        in_fields (λ o0. in_value (text_at (text "text")) (as_first (at_key (text "content") o0)))
          (as_fields o))
      (as_first (at_key (text "output") simple))

-- The texts of `extractText`, in the order in which they are looked for.
unfoldable pub find_text : Fields → Option Text
unfolding filled choice_text output_text
find_text simple = or_else (filled (at_key (text "text") simple)) (
    or_else (filled (at_key (text "response") simple)) (
      or_else (filled (at_key (text "answer") simple)) (
        or_else (filled (at_key (text "output_text") simple))
          (or_else (choice_text simple) (output_text simple)))))

abbrev pub text_or_error : Option Text → Result Text
text_or_error none = err (failed "custom response does not contain text field")
text_or_error (some t) = ok t

-- A body that is no JSON object is the answer itself.
abbrev pub plain_body : Text → Result Text
plain_body body =
    let trimmed = trim_space body in
    if is_empty trimmed then err (failed "decode custom response") else ok trimmed

abbrev pub extracted : Text → Option Fields → Result Text
extracted body none = plain_body body
extracted body (some simple) = text_or_error (find_text simple)

module _ (l : Library) where
  abbrev pub decoded_map : Text → Option Fields
  decoded_map body = in_value map_of (l.unmarshal body)

  -- `extractText`
  unfoldable pub extract_text : Text → Result Text
  unfolding find_text
  extract_text body = extracted body (decoded_map body)

  module _ (c : CustomConfig) where
    -- The payload without a template.
    unfoldable pub default_payload : ChatRequest → Value
    default_payload req = obj (
        field (text "model") (str req.model) (
          field (text "system_prompt") (str req.system_prompt) (
            field (text "prompt") (str req.user_prompt) (
              field (text "max_tokens") (num (format_int req.max_tokens)) (
                field (text "temperature") (num req.temperature)
                  (field (text "allow_tools") (bool req.allow_tools) end))))))

    -- What a template can name.
    unfoldable pub template_values : ChatRequest → Fields
    template_values req = field (text "Model") (str req.model) (
        field (text "SystemPrompt") (str req.system_prompt) (
          field (text "UserPrompt") (str req.user_prompt) (
            field (text "MaxTokens") (num (format_int req.max_tokens)) (
              field (text "Temperature") (num req.temperature) (
                field (text "AllowTools") (bool req.allow_tools)
                  (field (text "APIKey") (str c.api_key) end))))))

    abbrev body_text : String → Option Text → Result Text
    body_text label none = err (failed label)
    body_text label (some b) = ok b

    -- `renderBody`
    unfoldable pub render_body : ChatRequest → Result Text
    unfolding default_payload template_values
    render_body req =
        if is_blank c.body_template
        then body_text "marshal custom payload" (l.marshal (default_payload req))
        else body_text "body template" (l.render c.body_template (template_values req))

    -- The headers of `callOnce`.
    unfoldable pub custom_headers : Map Text Text
    custom_headers =
        if is_empty c.headers
        then set_header l.canonical (text "Content-Type") (text "application/json") []
        else set_headers l.canonical c.api_key c.headers []

    -- `send` is what a request comes to, by the number of the attempt. Without a URL there is no request,
    -- and the error is final.
    module _ (send : HttpRequest → ℕ → Reply) where
      unfoldable pub custom_reply : Text → ℕ → Reply
      unfolding custom_headers
      custom_reply body attempt =
          if is_blank c.url
          then unbuilt
          else send
              (record { method = c.method; url = c.url; headers = custom_headers; body = body })
              attempt

      abbrev pub custom_chat_with : Result Text → Result Text × List ℕ
      custom_chat_with (err e) = (err e, [])
      custom_chat_with (ok body) =
          chat_from extract_text (clamped c.backoff_base) (custom_reply body) 0
            (clamped c.max_retries)

      -- `Chat`
      unfoldable pub custom_chat : ChatRequest → Result Text × List ℕ
      unfolding render_body custom_reply extract_text
      custom_chat req = custom_chat_with (render_body req)
