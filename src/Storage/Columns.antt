-- ===== src/Storage/Columns.antt =====
-- The JSON columns of migrations/00001_init.sql, which are JSONB, and of the SQLite schema of
-- internal/storage/db.go, which are TEXT.
use mathlib.Core.Option.{some-injective}
use hyprbot.Storage.Tables.{Db, Driver, ProviderInstance, Preset, postgres, sqlite}
use hyprbot.Prelude.{Option, none, some, Text, ◌≡◌, ap, arith}

-- What a JSON column holds of a text, `none` where the statement fails.
unfoldable pub json_column : Driver → (Text → Option Text) → Text → Option Text
json_column sqlite jsonb t = some t
json_column postgres jsonb t = jsonb t

-- A column that may be NULL.
abbrev nullable : Option Text → Option (Option Text)
nullable none = none
nullable (some t) = some (some t)

unfoldable pub json_or_null : Driver → (Text → Option Text) → Option Text → Option (Option Text)
unfolding json_column
json_or_null driver jsonb none = some none
json_or_null driver jsonb (some t) = nullable (json_column driver jsonb t)

-- The JSON columns of a provider.
pub record Columns : Type 0 where
  pub enc_api_key : Option Text
  pub enc_headers_json : Option Text
  pub config_json : Text

abbrev columns_of : Option (Option Text) → Option (Option Text) → Option Text → Option Columns
columns_of none headers config = none
columns_of (some key) none config = none
columns_of (some key) (some headers) none = none
columns_of (some key) (some headers) (some config) =
    some (record { enc_api_key = key; enc_headers_json = headers; config_json = config })

unfoldable pub provider_columns : Db → ProviderInstance → Option Columns
unfolding json_column json_or_null
provider_columns db p =
    columns_of (json_or_null db.driver db.jsonb p.enc_api_key)
      (json_or_null db.driver db.jsonb p.enc_headers_json)
      (json_column db.driver db.jsonb p.config_json)

columns_of_lem :
    (key headers : Option (Option Text)) (config : Option Text) (c : Columns)
    → columns_of key headers config ≡ some c
    → (key ≡ some c.enc_api_key)
      × (headers ≡ some c.enc_headers_json)
      × (config ≡ some c.config_json)
columns_of_lem none headers config c h = absurd (ground arith)
columns_of_lem (some key) none config c h = absurd (ground arith)
columns_of_lem (some key) (some headers) none c h = absurd (ground arith)
columns_of_lem (some key) (some headers) (some config) c h =
    let e = some-injective _ _ h in
    (
      ap (λ d. some d.enc_api_key) e,
      ap (λ d. some d.enc_headers_json) e,
      ap (λ d. some d.config_json) e,
    )

pub provider_columns_lem :
    (db : Db) (p : ProviderInstance) (c : Columns)
    → provider_columns db p ≡ some c
    → (json_or_null db.driver db.jsonb p.enc_api_key ≡ some c.enc_api_key)
      × (json_or_null db.driver db.jsonb p.enc_headers_json ≡ some c.enc_headers_json)
      × (json_column db.driver db.jsonb p.config_json ≡ some c.config_json)
unfolding provider_columns
provider_columns_lem db p c h = columns_of_lem _ _ _ c h

-- The row as the columns hold it.
abbrev pub with_columns : ProviderInstance → Columns → ProviderInstance
with_columns p c = record p {
  enc_api_key = c.enc_api_key;
  enc_headers_json = c.enc_headers_json;
  config_json = c.config_json;
}

unfoldable pub preset_column : Db → Preset → Option Text
unfolding json_column
preset_column db p = json_column db.driver db.jsonb p.params_json
