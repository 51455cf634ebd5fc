-- ===== src/Examples/States.antt =====
-- A small database, and a state of the bot around it.
use hyprbot.Redis.Memory.{memory}
use hyprbot.Redis.Commands.{View}
use hyprbot.Storage.Tables.{Db, Chat, ProviderInstance, Preset, postgres}
use hyprbot.Storage.Ownership.{IsOwned}
use hyprbot.System.{Sys, Metrics}
use hyprbot.Prelude.{some, refl, none, text, [], pos, ℕ, arith, ◌∷◌}

abbrev pub team : Chat
team = record {
  id = pos 5;
  kind = text "group";
  title = text "team";
  default_preset_name = none;
  created_at = 1;
}

abbrev pub gpt : ProviderInstance
gpt = record {
  id = 1;
  chat_id = pos 5;
  name = text "gpt";
  kind = text "openai_compat";
  base_url = text "https://api.openai.com";
  enc_api_key = none;
  enc_headers_json = none;
  config_json = text "{}";
  created_at = 2;
}

abbrev pub short : Preset
short = record {
  chat_id = pos 5;
  name = text "short";
  provider_instance_id = 1;
  model = text "gpt-4o";
  system_prompt = text "Be brief.";
  params_json = text "{}";
  created_at = 3;
}

abbrev pub stored : Db
stored = record {
  driver = postgres;
  jsonb = λ t. some t;
  chats = team ∷ [];
  admin_cache = [];
  providers = gpt ∷ [];
  presets = short ∷ [];
  audit_log = [];
  next_provider_id = 2;
}

pub stored-IsOwned : IsOwned stored
stored-IsOwned = record {
  ids_below = (omega arith, tt);
  unique_ids = (tt, tt);
  owned = ((omega arith, (λ e. refl, tt)), tt);
}

abbrev pub no_metrics : Metrics
no_metrics = record { enqueued_jobs = 0; processed_jobs = 0; failed_jobs = 0; updates_total = 0 }

-- The bot at a time, with this server.
abbrev pub running : View → ℕ → Sys memory
running v now = record {
  redis = v;
  db = stored;
  clock = now;
  outbox = [];
  edits = [];
  answers = [];
  metrics = no_metrics;
}
