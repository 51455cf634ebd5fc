-- ===== src/Storage/Store.antt =====
-- The methods of internal/storage/repo.go. Each statement is one call, which may fail; building a
-- statement cannot fail for the constant statements of this file, and neither can scanning a row.
use hyprbot.Prelude.{
  ℕ, suc, Bool, true, false, ◌&&◌, ◌||◌, not, Option, none, some, List, [], ◌∷◌, ◌++◌, String, Text,
  text, text_has_eq, int_has_eq, ℤ, if◌then◌else◌, is_empty, not_found, failed, Result, ok, err,
}
use hyprbot.Strings.{is_blank}
use hyprbot.Redis.{Redis}
use hyprbot.System.{Exec, pure, lift, call, ◌>>=◌, ◌>>◌}
use hyprbot.Storage.Tables.{
  Chat, ProviderInstance, Preset, PresetWithProvider, AuditEntry, Driver, postgres, sqlite, Db,
}
use hyprbot.Storage.Statements
use hyprbot.Storage.Columns.{Columns, json_column, provider_columns, preset_column, with_columns}

-- `sql.ErrNoRows` read as `ErrNotFound`.
abbrev pub found {ℓ} : {A : Type ℓ} → Option A → Result A
found none = err not_found
found (some a) = ok a

-- Whether a chat may be referred to: the foreign key of Postgres.
unfoldable pub chat_key_holds : Driver → Option Chat → Bool
chat_key_holds sqlite c = true
chat_key_holds postgres none = false
chat_key_holds postgres (some c) = true

unfoldable pub provider_key_holds : Driver → Option ProviderInstance → Bool
provider_key_holds sqlite p = true
provider_key_holds postgres none = false
provider_key_holds postgres (some p) = true

-- What deleting providers does to `presets`.
unfoldable pub cascade : Driver → List ProviderInstance → List Preset → List Preset
cascade sqlite ps qs = qs
cascade postgres ps qs = Statements.with_provider ps qs

abbrev pub or_default : Text → Text → Text
or_default t d = if is_empty t then d else t

-- The rows that a DELETE or UPDATE met are counted by the condition that it filters by.
abbrev pub affected {ℓ} : {A : Type ℓ} → Option A → Result (Unit {0})
affected none = err not_found
affected (some _) = ok tt

abbrev pub write_provider : ℕ → ProviderInstance → Option Columns → Db → Result (Unit {0}) × Db
write_provider now p none db = (err (failed "upsert provider"), db)
write_provider now p (some c) db =
    if chat_key_holds db.driver (Statements.find_chat p.chat_id db.chats)
    then (
      ok tt,
      record db {
        providers =
            Statements.upsert_provider
              (record (with_columns p c) { id = db.next_provider_id; created_at = now })
              db.providers;
        next_provider_id = suc db.next_provider_id;
      },
    )
    else (err (failed "upsert provider"), db)

unfoldable pub insert_provider_row : ℕ → ProviderInstance → Db → Result (Unit {0}) × Db
unfolding chat_key_holds
insert_provider_row now p db = write_provider now p (provider_columns db p) db

unfoldable pub delete_provider_row : ℤ → Text → Db → Result (Unit {0}) × Db
unfolding cascade
delete_provider_row chat_id name db =
    let ps = Statements.delete_provider chat_id name db.providers in
    (
      affected (Statements.find_provider chat_id name db.providers),
      record db { providers = ps; presets = cascade db.driver ps db.presets },
    )

-- The foreign keys of a preset.
unfoldable pub preset_keys_hold : Preset → Db → Bool
unfolding chat_key_holds provider_key_holds
preset_keys_hold p db =
    chat_key_holds db.driver (Statements.find_chat p.chat_id db.chats)
    && provider_key_holds db.driver (Statements.join_provider p.provider_instance_id db.providers)

abbrev pub write_preset : ℕ → Preset → Option Text → Db → Result (Unit {0}) × Db
write_preset now p none db = (err (failed "upsert preset"), db)
write_preset now p (some params) db =
    if preset_keys_hold p db
    then (
      ok tt,
      record db {
        presets =
            Statements.upsert_preset (record p { params_json = params; created_at = now })
              db.presets;
      },
    )
    else (err (failed "upsert preset"), db)

unfoldable pub insert_preset_row : ℕ → Preset → Db → Result (Unit {0}) × Db
insert_preset_row now p db = write_preset now p (preset_column db p) db

abbrev pub write_audit : AuditEntry → Option Text → Db → Result (Unit {0}) × Db
write_audit e none db = (err (failed "insert audit entry"), db)
write_audit e (some meta) db =
    (ok tt, record db { audit_log = db.audit_log ++ record e { meta_json = meta } ∷ [] })

unfoldable pub delete_preset_row : ℤ → Text → Db → Result (Unit {0}) × Db
delete_preset_row chat_id name db = (
  affected (Statements.find_preset chat_id name db.presets),
  record db { presets = Statements.delete_preset chat_id name db.presets },
)

unfoldable pub update_default : ℤ → Option Text → Db → Result (Unit {0}) × Db
update_default chat_id name db = (
  affected (Statements.find_chat chat_id db.chats),
  record db { chats = Statements.set_default chat_id name db.chats },
)

-- A name that is NULL or blank is no default.
usable_name : Option Text → Result Text
usable_name none = err not_found
usable_name (some name) = if is_blank name then err not_found else ok name

unfoldable pub default_name : Option Chat → Result Text
unfolding usable_name
default_name none = err not_found
default_name (some c) = usable_name c.default_preset_name

abbrev join_at : Preset → Option ProviderInstance → Result PresetWithProvider
join_at p none = err not_found
join_at p (some r) = ok (record { preset = p; provider = r })

abbrev joined : Option Preset → List ProviderInstance → Result PresetWithProvider
joined none ps = err not_found
joined (some p) ps = join_at p (Statements.join_provider p.provider_instance_id ps)

unfoldable pub preset_with_provider : ℤ → Text → Db → Result PresetWithProvider
preset_with_provider chat_id name db =
    joined (Statements.find_preset chat_id name db.presets) db.providers

abbrev id_of : ProviderInstance → ℕ
id_of p = p.id

module _ {R : Redis} where
  -- A statement that only reads.
  abbrev pub query : {A : Type 0} → (Db → Result A) → String → Exec R A
  query f label = call (λ s. (f s.db, s)) label >>= lift

  -- A statement that writes.
  abbrev pub execute : {A : Type 0} → (ℕ → Db → Result A × Db) → String → Exec R A
  execute f label =
      call (λ s. let (r, db) = f s.clock s.db in (r, record s { db = db })) label >>= lift

  unfoldable pub ensure_chat : ℤ → Text → Text → Exec R (Unit {0})
  ensure_chat chat_id chat_type title =
      execute
        (λ now db. (
          ok tt,
          record db {
            chats =
                Statements.upsert_chat chat_id (or_default chat_type (text "unknown")) title now
                  db.chats;
          },
        ))
        "ensure chat"

  unfoldable pub set_admin_cache : ℤ → ℤ → Bool → Exec R (Unit {0})
  set_admin_cache chat_id user_id is_admin =
      execute
        (λ now db. (
          ok tt,
          record db {
            admin_cache = Statements.upsert_admin chat_id user_id is_admin now db.admin_cache;
          },
        ))
        "set admin cache"

  -- `(isAdmin, found)` as an option.
  unfoldable pub get_admin_cache : ℤ → ℤ → Exec R (Option Bool)
  get_admin_cache chat_id user_id =
      query (λ db. ok (Statements.find_admin chat_id user_id db.admin_cache)) "get admin cache"

  unfoldable pub get_provider_by_name : ℤ → Text → Exec R ProviderInstance
  get_provider_by_name chat_id name =
      query (λ db. found (Statements.find_provider chat_id name db.providers))
        "get provider by name"

  unfoldable pub get_provider_by_id : ℤ → ℕ → Exec R ProviderInstance
  get_provider_by_id chat_id id =
      query (λ db. found (Statements.find_provider_by_id chat_id id db.providers))
        "get provider by id"

  unfoldable pub get_provider_instance_id : ℤ → Text → Exec R ℕ
  get_provider_instance_id chat_id name =
      query (λ db. found (Statements.find_provider chat_id name db.providers)) "get provider id"
      >>= λ p. pure (id_of p)

  unfoldable pub upsert_provider_instance : ProviderInstance → Exec R ℕ
  unfolding get_provider_instance_id
  upsert_provider_instance p =
      execute
        (λ now.
          insert_provider_row now (record p { config_json = or_default p.config_json (text "{}") }))
        "upsert provider"
      >> get_provider_instance_id p.chat_id p.name

  unfoldable pub list_providers : ℤ → Exec R (List ProviderInstance)
  list_providers chat_id =
      query (λ db. ok (Statements.order_providers (Statements.providers_of chat_id db.providers)))
        "list providers"

  unfoldable pub delete_provider_by_name : ℤ → Text → Exec R (Unit {0})
  delete_provider_by_name chat_id name =
      execute (λ now. delete_provider_row chat_id name) "delete provider"

  unfoldable pub upsert_preset : Preset → Exec R (Unit {0})
  upsert_preset p =
      execute
        (λ now.
          insert_preset_row now (record p { params_json = or_default p.params_json (text "{}") }))
        "upsert preset"

  unfoldable pub delete_preset : ℤ → Text → Exec R (Unit {0})
  delete_preset chat_id name = execute (λ now. delete_preset_row chat_id name) "delete preset"

  unfoldable pub set_default_preset : ℤ → Text → Exec R (Unit {0})
  set_default_preset chat_id name =
      execute (λ now. update_default chat_id (some name)) "set default preset"

  -- The rows that it meets are not counted.
  unfoldable pub clear_default_preset : ℤ → Exec R (Unit {0})
  clear_default_preset chat_id =
      execute (λ now db. (ok tt, (update_default chat_id none db).1)) "clear default preset"

  unfoldable pub get_default_preset_name : ℤ → Exec R Text
  get_default_preset_name chat_id =
      query (λ db. default_name (Statements.find_chat chat_id db.chats)) "get default preset name"

  unfoldable pub list_presets : ℤ → Exec R (List Preset)
  list_presets chat_id =
      query (λ db. ok (Statements.order_presets (Statements.presets_of chat_id db.presets)))
        "list presets"

  unfoldable pub get_preset_with_provider_by_name : ℤ → Text → Exec R PresetWithProvider
  get_preset_with_provider_by_name chat_id name =
      query (preset_with_provider chat_id name) "get preset with provider"

  unfoldable pub get_default_preset_with_provider : ℤ → Exec R PresetWithProvider
  get_default_preset_with_provider chat_id =
      query (λ db. default_name (Statements.find_chat chat_id db.chats)) "get default preset"
      >>= λ name. get_preset_with_provider_by_name chat_id name

  -- `is_json` is `json.Valid`.
  unfoldable pub log_action : (Text → Bool) → AuditEntry → Exec R (Unit {0})
  log_action is_json e =
      let meta =
        if is_blank e.meta_json || not (is_json e.meta_json) then text "{}" else e.meta_json in
      execute (λ now db. write_audit e (json_column db.driver db.jsonb meta) db)
        "insert audit entry"
