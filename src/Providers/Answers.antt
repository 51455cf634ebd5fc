-- ===== src/Providers/Answers.antt =====
-- The texts that the two provider clients of internal/providers return.
use hyprbot.Providers.Attempts.{Reply}
use hyprbot.Providers.Openai
use hyprbot.Providers.Openai.{
  Choice, ResponseBody, chat, chat_with, build_payload, parse_body, first_choice, response_text,
  content_or_error, any_to_text, first_output, is_responses_endpoint,
}
use hyprbot.Providers.Custom
use hyprbot.Providers.Custom.{
  custom_chat, custom_chat_with, render_body, extract_text, extracted, decoded_map, text_or_error,
  find_text, plain_body, custom_reply, in_fields, in_value, filled, filled_of, or_else, text_at,
  choice_text, output_text,
}
use hyprbot.Providers.Attempts.Parsed.{chat_from-IsParsed}
use hyprbot.Providers.Registry.{OpenaiConfig, CustomConfig}
use hyprbot.Providers.Request.{ChatRequest}
use hyprbot.Providers.Http.{HttpRequest}
use hyprbot.Encoding.Value.{Value, Fields, as_string, as_fields, at_key}
use hyprbot.Strings.{is_blank, trim_space}
use hyprbot.Strings.Trim.{trim_space_idem}
use hyprbot.Prelude.{
  failed, subst, inr, inl, Bool-cases, ℕ, arith, Result, refl, if◌then◌else◌, is_empty, false, true,
  Error, List, Option, Text, none, some, [], ◌∷◌, ok, err, ◌≡◌,
}

blank_nil : is_blank [] ≡ true
unfolding is_blank trim_space hyprbot.Strings.trim_left hyprbot.Strings.trim_right
blank_nil = refl

-- A text that is not blank is not empty.
filled_of_blank : (t : Text) → is_blank t ≡ false → is_empty t ≡ false
filled_of_blank [] h = absurd (ground (arith, blank_nil))
filled_of_blank (c ∷ t) h = refl

ok_unless_blank :
    (e : Error) (x t : Text) → (if is_blank x then err e else ok x) ≡ ok t → is_blank t ≡ false
ok_unless_blank e x t h = ground arith

first_choice-filled :
    (o : Option (List Choice)) (t : Text) → first_choice o ≡ ok t → is_empty t ≡ false
first_choice-filled none t h = absurd (ground arith)
first_choice-filled (some []) t h = absurd (ground arith)
first_choice-filled (some (c ∷ cs)) t h = elim (Bool-cases (is_empty c.text)) [
  | inl q ↦ filled_of_blank t (
      ok_unless_blank (failed "missing message content in chat completion response")
        (any_to_text c.content) t (ground arith))
  | inr q ↦ ground arith
]

first_output-filled :
    (out : List (List Text)) (t : Text) → first_output out ≡ ok t → is_blank t ≡ false
first_output-filled [] t h = absurd (ground arith)
first_output-filled ([] ∷ out) t h = absurd (ground arith)
first_output-filled ((x ∷ xs) ∷ out) t h = ok_unless_blank _ x t h

response_text-filled :
    (o : Option ResponseBody) (t : Text) → response_text o ≡ ok t → is_blank t ≡ false
response_text-filled none t h = absurd (ground arith)
response_text-filled (some r) t h = elim (Bool-cases (is_blank r.output_text)) [
  | inl q ↦ first_output-filled r.output t (ground arith)
  | inr q ↦ ground arith
]

filled-blank : (v : Value) (t : Text) → filled v ≡ some t → is_blank t ≡ false
unfolding filled
filled-blank v t h = by_string (as_string v) h
  where
    by_string : (o : Option Text) → filled_of o ≡ some t → is_blank t ≡ false
    by_string none k = absurd (ground arith)
    by_string (some x) k = ground arith

-- What is looked for in a value gives only texts that are not blank.
record OnlyFilled (o : Option Text) : Type 0 where
  each : (t : Text) → o ≡ some t → is_blank t ≡ false

OnlyFilled-none : OnlyFilled none
OnlyFilled-none = record { each = λ t e. absurd (ground arith) }

OnlyFilled-filled : (v : Value) → OnlyFilled (filled v)
OnlyFilled-filled v = record { each = filled-blank v }

OnlyFilled-or_else : (o p : Option Text) → OnlyFilled o → OnlyFilled p → OnlyFilled (or_else o p)
OnlyFilled-or_else none p h k = k
OnlyFilled-or_else (some t) p h k = h

OnlyFilled-in_fields :
    (f : Fields → Option Text) (o : Option Fields)
    → ((fs : Fields) → OnlyFilled (f fs))
    → OnlyFilled (in_fields f o)
OnlyFilled-in_fields f none k = OnlyFilled-none
OnlyFilled-in_fields f (some fs) k = k fs

OnlyFilled-in_value :
    (f : Value → Option Text) (o : Option Value)
    → ((v : Value) → OnlyFilled (f v))
    → OnlyFilled (in_value f o)
OnlyFilled-in_value f none k = OnlyFilled-none
OnlyFilled-in_value f (some v) k = k v

OnlyFilled-text_at : (k : Text) (v : Value) → OnlyFilled (text_at k v)
OnlyFilled-text_at k v =
    OnlyFilled-in_fields _ (as_fields v) (λ fs. OnlyFilled-filled (at_key k fs))

ruleset filled_rules = (
  OnlyFilled-filled, OnlyFilled-or_else, OnlyFilled-in_fields, OnlyFilled-in_value,
  OnlyFilled-text_at,
)

OnlyFilled-choice_text : (fs : Fields) → OnlyFilled (choice_text fs)
unfolding choice_text
OnlyFilled-choice_text fs = search filled_rules depth 8

OnlyFilled-output_text : (fs : Fields) → OnlyFilled (output_text fs)
unfolding output_text
OnlyFilled-output_text fs = search filled_rules depth 8

OnlyFilled-find_text : (fs : Fields) → OnlyFilled (find_text fs)
unfolding find_text
OnlyFilled-find_text fs =
    search (filled_rules, OnlyFilled-choice_text, OnlyFilled-output_text) depth 10

text_or_error-filled :
    (o : Option Text) (t : Text) → OnlyFilled o → text_or_error o ≡ ok t → is_blank t ≡ false
text_or_error-filled none t f h = absurd (ground arith)
text_or_error-filled (some x) t f h = f.each t (ground arith)

plain_body-filled : (body t : Text) → plain_body body ≡ ok t → is_blank t ≡ false
unfolding is_blank
plain_body-filled body t h = elim (Bool-cases (is_empty (trim_space body))) [
  | inl q ↦ absurd (ground arith)
  | inr q ↦
      let same : trim_space body ≡ t = ground arith in
      subst (λ x. is_empty (trim_space x) ≡ false) same (rw (trim_space_idem body) q)
]

extracted-filled :
    (body : Text) (o : Option Fields) (t : Text) → extracted body o ≡ ok t → is_blank t ≡ false
extracted-filled body none t h = plain_body-filled body t h
extracted-filled body (some fs) t h =
    text_or_error-filled (find_text fs) t (OnlyFilled-find_text fs) h

parse_body-filled :
    (l : Openai.Library) (c : OpenaiConfig) (body t : Text)
    → parse_body l c body ≡ ok t
    → is_empty t ≡ false
unfolding parse_body
parse_body-filled l c body t h = elim (Bool-cases (is_responses_endpoint c.endpoint)) [
  | inl q ↦ filled_of_blank t (response_text-filled (l.decode_response body) t (ground arith))
  | inr q ↦ first_choice-filled (l.decode_chat body) t (ground arith)
]

chat_with-filled :
    (l : Openai.Library) (c : OpenaiConfig) (send : HttpRequest → ℕ → Reply)
    (r : Result (Text × Text)) (t : Text)
    → (chat_with l c send r).0 ≡ ok t
    → is_empty t ≡ false
chat_with-filled l c send (err e) t h = absurd (ground arith)
chat_with-filled l c send (ok (body, url)) t h =
    let (answer, e) = chat_from-IsParsed (parse_body l c) _ _ _ _ t h in
    parse_body-filled l c answer t e

custom_chat_with-filled :
    (l : Custom.Library) (c : CustomConfig) (send : HttpRequest → ℕ → Reply) (r : Result Text)
    (t : Text)
    → (custom_chat_with l c send r).0 ≡ ok t
    → is_blank t ≡ false
unfolding extract_text
custom_chat_with-filled l c send (err e) t h = absurd (ground arith)
custom_chat_with-filled l c send (ok body) t h =
    let (answer, e) = chat_from-IsParsed (extract_text l) _ _ _ _ t h in
    extracted-filled answer (decoded_map l answer) t e

-- Whatever the servers answer, and however often they are asked, a text that the OpenAI client
-- returns is not empty.
pub chat-filled :
    (l : Openai.Library) (c : OpenaiConfig) (send : HttpRequest → ℕ → Reply) (req : ChatRequest)
    (t : Text)
    → (chat l c send req).0 ≡ ok t
    → is_empty t ≡ false
unfolding chat
chat-filled l c send req t h = chat_with-filled l c send (build_payload l c req) t h

-- Whatever the server answers, JSON or not, and however often it is asked, a text that the
-- custom client returns is not blank.
pub custom_chat-filled :
    (l : Custom.Library) (c : CustomConfig) (send : HttpRequest → ℕ → Reply) (req : ChatRequest)
    (t : Text)
    → (custom_chat l c send req).0 ≡ ok t
    → is_blank t ≡ false
unfolding custom_chat
custom_chat-filled l c send req t h = custom_chat_with-filled l c send (render_body l c req) t h
