-- ===== src/Storage/Tables.antt =====
-- internal/storage/models.go and the tables of migrations/00001_init.sql.
use hyprbot.Prelude.{ℕ, Bool, Option, List, Text, ℤ}

pub record Chat : Type 0 where
  pub id : ℤ
  pub kind : Text
  pub title : Text
  pub default_preset_name : Option Text
  pub created_at : ℕ

pub record ProviderInstance : Type 0 where
  pub id : ℕ
  pub chat_id : ℤ
  pub name : Text
  pub kind : Text
  pub base_url : Text
  pub enc_api_key : Option Text
  pub enc_headers_json : Option Text
  pub config_json : Text
  pub created_at : ℕ

pub record Preset : Type 0 where
  pub chat_id : ℤ
  pub name : Text
  pub provider_instance_id : ℕ
  pub model : Text
  pub system_prompt : Text
  pub params_json : Text
  pub created_at : ℕ

pub record PresetWithProvider : Type 0 where
  pub preset : Preset
  pub provider : ProviderInstance

pub record AuditEntry : Type 0 where
  pub chat_id : ℤ
  pub user_id : ℤ
  pub action : Text
  pub meta_json : Text

-- A row of `chat_admin_cache`.
pub record AdminRow : Type 0 where
  pub chat_id : ℤ
  pub user_id : ℤ
  pub is_admin : Bool
  pub updated_at : ℕ

-- The two schemas: only that of Postgres declares the foreign keys and their cascades.
pub data Driver : Type 0 where
  postgres sqlite : Driver

-- `jsonb` is what Postgres gives back of a text that is written to a JSONB column: the value in its own
-- notation, and `none` where the text is no JSON, which it refuses.
pub record Db : Type 0 where
  pub driver : Driver
  pub jsonb : Text → Option Text
  pub chats : List Chat
  pub admin_cache : List AdminRow
  pub providers : List ProviderInstance
  pub presets : List Preset
  pub audit_log : List AuditEntry
  pub next_provider_id : ℕ
