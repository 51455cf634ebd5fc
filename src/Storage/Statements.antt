-- ===== src/Storage/Statements.antt =====
-- The SQL statements that internal/storage/repo.go builds, as functions on the tables. A failed
-- foreign key is `none`. Rows stand in the order of their insertion.
use hyprbot.Prelude.{
  ℕ, Bool, ◌&&◌, Option, none, some, List, [], ◌∷◌, Text, ◌==◌, text_has_eq, int_has_eq, ℤ, eqb,
  leb, if◌then◌else◌,
}
use hyprbot.Storage.Tables.{Chat, ProviderInstance, Preset, AdminRow}

-- INSERT INTO chats … ON CONFLICT(id) DO UPDATE SET type, title
unfoldable pub upsert_chat : ℤ → Text → Text → ℕ → List Chat → List Chat
upsert_chat id kind title now [] =
    record { id = id; kind = kind; title = title; default_preset_name = none; created_at = now }
    ∷ []
upsert_chat id kind title now (c ∷ cs) =
    let rest = upsert_chat id kind title now cs in
    if c.id == id then record c { kind = kind; title = title } ∷ cs else c ∷ rest

-- SELECT … FROM chats WHERE id = ?
unfoldable pub find_chat : ℤ → List Chat → Option Chat
find_chat id [] = none
find_chat id (c ∷ cs) = if c.id == id then some c else find_chat id cs

-- UPDATE chats SET default_preset_name = ? WHERE id = ?
unfoldable pub set_default : ℤ → Option Text → List Chat → List Chat
set_default id name [] = []
set_default id name (c ∷ cs) =
    (if c.id == id then record c { default_preset_name = name } else c) ∷ set_default id name cs

-- INSERT INTO chat_admin_cache … ON CONFLICT(chat_id, user_id) DO UPDATE SET is_admin, updated_at
unfoldable pub upsert_admin : ℤ → ℤ → Bool → ℕ → List AdminRow → List AdminRow
upsert_admin chat_id user_id is_admin now [] =
    record { chat_id = chat_id; user_id = user_id; is_admin = is_admin; updated_at = now } ∷ []
upsert_admin chat_id user_id is_admin now (r ∷ rs) =
    let rest = upsert_admin chat_id user_id is_admin now rs in
    if r.chat_id == chat_id && r.user_id == user_id
    then record r { is_admin = is_admin; updated_at = now } ∷ rs
    else r ∷ rest

-- SELECT is_admin FROM chat_admin_cache WHERE chat_id = ? AND user_id = ?
unfoldable pub find_admin : ℤ → ℤ → List AdminRow → Option Bool
find_admin chat_id user_id [] = none
find_admin chat_id user_id (r ∷ rs) =
    if r.chat_id == chat_id && r.user_id == user_id
    then some r.is_admin
    else find_admin chat_id user_id rs

-- chat_id = ? AND name = ?, on the rows of two tables
abbrev pub is_provider : ℤ → Text → ProviderInstance → Bool
is_provider chat_id name p = p.chat_id == chat_id && p.name == name

abbrev pub is_preset : ℤ → Text → Preset → Bool
is_preset chat_id name p = p.chat_id == chat_id && p.name == name

-- INSERT INTO provider_instances … ON CONFLICT(chat_id, name) DO UPDATE SET kind, base_url,
-- enc_api_key, enc_headers_json, config_json. A row that is there keeps its `id` and `created_at`.
unfoldable pub upsert_provider : ProviderInstance → List ProviderInstance → List ProviderInstance
upsert_provider p [] = p ∷ []
upsert_provider p (r ∷ rs) =
    let rest = upsert_provider p rs in
    if is_provider p.chat_id p.name r
    then record r {
      kind = p.kind;
      base_url = p.base_url;
      enc_api_key = p.enc_api_key;
      enc_headers_json = p.enc_headers_json;
      config_json = p.config_json;
    }
      ∷ rs
    else r ∷ rest

-- SELECT … FROM provider_instances WHERE chat_id = ? AND name = ?
unfoldable pub find_provider : ℤ → Text → List ProviderInstance → Option ProviderInstance
find_provider chat_id name [] = none
find_provider chat_id name (p ∷ ps) =
    if is_provider chat_id name p then some p else find_provider chat_id name ps

-- SELECT … FROM provider_instances WHERE chat_id = ? AND id = ?
unfoldable pub find_provider_by_id : ℤ → ℕ → List ProviderInstance → Option ProviderInstance
find_provider_by_id chat_id id [] = none
find_provider_by_id chat_id id (p ∷ ps) =
    if p.chat_id == chat_id && eqb p.id id then some p else find_provider_by_id chat_id id ps

-- The other side of JOIN provider_instances pr ON p.provider_instance_id = pr.id
unfoldable pub join_provider : ℕ → List ProviderInstance → Option ProviderInstance
join_provider id [] = none
join_provider id (p ∷ ps) = if eqb p.id id then some p else join_provider id ps

-- WHERE chat_id = ?
unfoldable pub providers_of : ℤ → List ProviderInstance → List ProviderInstance
providers_of chat_id [] = []
providers_of chat_id (p ∷ ps) =
    let rest = providers_of chat_id ps in if p.chat_id == chat_id then p ∷ rest else rest

unfoldable pub presets_of : ℤ → List Preset → List Preset
presets_of chat_id [] = []
presets_of chat_id (p ∷ ps) =
    let rest = presets_of chat_id ps in if p.chat_id == chat_id then p ∷ rest else rest

-- DELETE FROM provider_instances WHERE chat_id = ? AND name = ?
unfoldable pub delete_provider : ℤ → Text → List ProviderInstance → List ProviderInstance
delete_provider chat_id name [] = []
delete_provider chat_id name (p ∷ ps) =
    let rest = delete_provider chat_id name ps in
    if is_provider chat_id name p then rest else p ∷ rest

abbrev pub kept : Option ProviderInstance → Preset → List Preset → List Preset
kept none q rest = rest
kept (some _) q rest = q ∷ rest

-- ON DELETE CASCADE of `presets.provider_instance_id`: the presets whose provider is still there.
unfoldable pub with_provider : List ProviderInstance → List Preset → List Preset
with_provider ps [] = []
with_provider ps (q ∷ qs) = kept (join_provider q.provider_instance_id ps) q (with_provider ps qs)

-- INSERT INTO presets … ON CONFLICT(chat_id, name) DO UPDATE SET provider_instance_id, model,
-- system_prompt, params_json
unfoldable pub upsert_preset : Preset → List Preset → List Preset
upsert_preset p [] = p ∷ []
upsert_preset p (r ∷ rs) =
    let rest = upsert_preset p rs in
    if is_preset p.chat_id p.name r
    then record r {
      provider_instance_id = p.provider_instance_id;
      model = p.model;
      system_prompt = p.system_prompt;
      params_json = p.params_json;
    }
      ∷ rs
    else r ∷ rest

-- SELECT … FROM presets WHERE chat_id = ? AND name = ?
unfoldable pub find_preset : ℤ → Text → List Preset → Option Preset
find_preset chat_id name [] = none
find_preset chat_id name (p ∷ ps) =
    if is_preset chat_id name p then some p else find_preset chat_id name ps

-- DELETE FROM presets WHERE chat_id = ? AND name = ?
unfoldable pub delete_preset : ℤ → Text → List Preset → List Preset
delete_preset chat_id name [] = []
delete_preset chat_id name (p ∷ ps) =
    let rest = delete_preset chat_id name ps in if is_preset chat_id name p then rest else p ∷ rest

-- `ORDER BY created_at ASC`, by stable insertion.
insert_provider : ProviderInstance → List ProviderInstance → List ProviderInstance
insert_provider p [] = p ∷ []
insert_provider p (q ∷ qs) =
    let rest = insert_provider p qs in
    if leb p.created_at q.created_at then p ∷ q ∷ qs else q ∷ rest

unfoldable pub order_providers : List ProviderInstance → List ProviderInstance
unfolding insert_provider
order_providers [] = []
order_providers (p ∷ ps) = insert_provider p (order_providers ps)

insert_preset : Preset → List Preset → List Preset
insert_preset p [] = p ∷ []
insert_preset p (q ∷ qs) =
    let rest = insert_preset p qs in if leb p.created_at q.created_at then p ∷ q ∷ qs else q ∷ rest

unfoldable pub order_presets : List Preset → List Preset
unfolding insert_preset
order_presets [] = []
order_presets (p ∷ ps) = insert_preset p (order_presets ps)
