-- ===== src/Examples/Clients.antt =====
-- The theorems on the provider clients, applied.
use hyprbot.Providers.Attempts.{Reply, status, unreachable, answered, call_once, chat_from}
use hyprbot.Providers.Attempts.Retries.{
  AllTemporary, sum, chat_from-succeeds, chat_from-exhausts, chat_from-length,
}
use hyprbot.Providers.Custom
use hyprbot.Providers.Answers.{custom_chat-filled}
use hyprbot.Providers.Registry.{CustomConfig}
use hyprbot.Providers.Request.{ChatRequest}
use hyprbot.Strings.{is_blank}
use hyprbot.Prelude.{
  none, false, some, pos, arith, ◌^◌, ◌*◌, zero, ◌+◌, err, text, suc, Error, ◌≤◌, [], ◌≡◌, refl, ℕ,
  ok, length,
}

-- The provider is overloaded, then it cannot be reached, then it answers.
abbrev replies : ℕ → Reply
replies zero = status 503 []
replies (suc zero) = unreachable
replies (suc (suc n)) = status 200 (text "42")

replies_temporary : AllTemporary (λ b. ok b) 400 replies 0 2
unfolding call_once
replies_temporary = ((_, refl), ((_, refl), tt))

third_answered : call_once (λ b. ok b) (replies 2) ≡ answered (text "42")
unfolding call_once
third_answered = refl

chat_from-succeeds_example :
    let (r, ws) = chat_from (λ b. ok b) 400 replies 0 3 in
    (r ≡ ok (text "42")) × (length ws ≡ 2) × (sum ws + 400 ≡ 400 * 2 ^ 2)
chat_from-succeeds_example =
    chat_from-succeeds (λ b. ok b) 400 replies 2 3 (text "42") replies_temporary third_answered
      (omega arith)

chat_from-exhausts_example :
    let (r, ws) = chat_from (λ b. ok b) 400 replies 0 1 in
    ((e : Error) × (r ≡ err e)) × (length ws ≡ 1)
chat_from-exhausts_example = chat_from-exhausts (λ b. ok b) 400 replies 1 replies_temporary

chat_from-length_example : length (chat_from (λ b. ok b) 400 replies 0 1).1 ≤ 1
chat_from-length_example = chat_from-length (λ b. ok b) 400 replies 1

abbrev request : ChatRequest
request = record {
  model = text "m";
  system_prompt = [];
  user_prompt = text "6 * 7?";
  max_tokens = pos 0;
  temperature = [];
  allow_tools = false;
}

abbrev custom_library : Custom.Library
custom_library = record {
  marshal = λ v. some (text "{}");
  render = λ t fs. none;
  unmarshal = λ b. none;
  canonical = λ k. k;
}

abbrev custom_config : CustomConfig
custom_config = record {
  url = text "https://a.b";
  api_key = [];
  headers = [];
  body_template = [];
  method = text "POST";
  max_retries = pos 2;
  backoff_base = pos 400;
}

custom_answers :
    (Custom.custom_chat custom_library custom_config (λ r n. replies n) request).0 ≡ ok (text "42")
unfolding Custom.custom_chat text is_blank chat_from call_once
custom_answers = refl

custom_chat-filled_example : is_blank (text "42") ≡ false
custom_chat-filled_example =
    custom_chat-filled custom_library custom_config (λ r n. replies n) request (text "42")
      custom_answers
