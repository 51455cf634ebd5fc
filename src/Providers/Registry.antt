-- ===== src/Providers/Registry.antt =====
-- internal/providers/registry/registry.go, and the defaults that the two `New` functions fill in.
use hyprbot.Prelude.Map
use hyprbot.Prelude.Map.{Map}
use hyprbot.Prelude.{
  none, some, negsuc, failed, err, [], ok, ◌||◌, text, pos, Option, is_positive, ◌==◌, is_empty, ℤ,
  Text, Result, if◌then◌else◌, text_has_eq,
}

-- A value of a decoded `map[string]any`, as far as a type assertion to `string` tells.
pub data Any : Type 0 where
  string : Text → Any
  other : Any

pub record BuildOptions : Type 0 where
  pub kind : Text
  pub base_url : Text
  pub api_key : Text
  pub headers : Map Text Text
  pub config : Map Text Any
  pub max_retries : ℤ
  pub backoff_base : ℤ

-- openai_compat.Config
pub record OpenaiConfig : Type 0 where
  pub base_url : Text
  pub api_key : Text
  pub headers : Map Text Text
  pub endpoint : Text
  pub max_retries : ℤ
  pub backoff_base : ℤ

-- custom_http.Config
pub record CustomConfig : Type 0 where
  pub url : Text
  pub api_key : Text
  pub headers : Map Text Text
  pub body_template : Text
  pub method : Text
  pub max_retries : ℤ
  pub backoff_base : ℤ

pub data Client : Type 0 where
  openai : OpenaiConfig → Client
  custom : CustomConfig → Client

-- `if n < 0 { n = 0 }`
clamp_retries : ℤ → ℤ
clamp_retries (pos n) = pos n
clamp_retries (negsuc n) = pos 0

-- `if d <= 0 { d = 400 * time.Millisecond }`
default_backoff : ℤ → ℤ
default_backoff d = if is_positive d then d else pos 400000000

-- openai_compat.New
unfoldable pub new_openai : OpenaiConfig → OpenaiConfig
unfolding clamp_retries default_backoff
new_openai c = record c {
  endpoint = if is_empty c.endpoint then text "chat_completions" else c.endpoint;
  max_retries = clamp_retries c.max_retries;
  backoff_base = default_backoff c.backoff_base;
}

-- custom_http.New
unfoldable pub new_custom : CustomConfig → CustomConfig
unfolding clamp_retries default_backoff
new_custom c = record c {
  method = if is_empty c.method then text "POST" else c.method;
  max_retries = clamp_retries c.max_retries;
  backoff_base = default_backoff c.backoff_base;
}

-- `if v, ok := m[key].(string); ok && v != "" { … }` over a default
nonempty_or : Text → Option Any → Text
nonempty_or d none = d
nonempty_or d (some other) = d
nonempty_or d (some (string v)) = if is_empty v then d else v

string_or : Text → Option Any → Text
string_or d none = d
string_or d (some other) = d
string_or d (some (string v)) = v

-- `Build`
unfoldable pub build : BuildOptions → Result Client
unfolding nonempty_or string_or
build o =
    if o.kind == text "openai_compat"
      || o.kind == text "openai-compatible"
      || o.kind == text "openai"
    then ok (
        openai (
          new_openai (record {
            base_url = o.base_url;
            api_key = o.api_key;
            headers = o.headers;
            endpoint =
                nonempty_or (text "chat_completions") (Map.lookup (text "endpoint") o.config);
            max_retries = o.max_retries;
            backoff_base = o.backoff_base;
          })))
    else if o.kind == text "custom_http" || o.kind == text "custom-http"
    then ok (
        custom (
          new_custom (record {
            url = o.base_url;
            api_key = o.api_key;
            headers = o.headers;
            body_template = string_or [] (Map.lookup (text "body_template") o.config);
            method = nonempty_or (text "POST") (Map.lookup (text "method") o.config);
            max_retries = o.max_retries;
            backoff_base = o.backoff_base;
          })))
    else err (failed "unsupported provider kind")
