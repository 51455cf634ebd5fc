-- ===== src/Storage/Lookups.antt =====
-- Lookups after the upserts and deletes of internal/storage/repo.go.
pub mod Inserted
use hyprbot.Storage.Tables.{ProviderInstance, Preset}
use hyprbot.Storage.Statements.{
  find_provider, upsert_provider, delete_provider, is_provider, find_preset, upsert_preset,
  delete_preset, is_preset,
}
use hyprbot.Prelude.{
  [], text_eq_iff, int_eq_iff, ◌∷◌, ◌&&◌, arith, if◌then◌else◌, ◌≡◌, none, List, Text, some, Option,
  ℤ, text_has_eq, int_has_eq, ◌==◌,
}

-- The row that an upsert leaves: a row that was there keeps its identifier and its date.
abbrev pub merged : ProviderInstance → Option ProviderInstance → ProviderInstance
merged p none = p
merged p (some r) = record p {
  id = r.id;
  chat_id = r.chat_id;
  name = r.name;
  created_at = r.created_at;
}

-- After an upsert of a provider, a lookup by its chat and name finds it, with the identifier and
-- date of the row that was there, and every other lookup is as before.
pub find_provider-upsert_provider :
    (p : ProviderInstance) (chat_id : ℤ) (name : Text) (ps : List ProviderInstance)
    → find_provider chat_id name (upsert_provider p ps) ≡ (
        if is_provider chat_id name p
        then some (merged p (find_provider chat_id name ps))
        else find_provider chat_id name ps)
unfolding find_provider upsert_provider
find_provider-upsert_provider p chat_id name [] = ground arith
find_provider-upsert_provider p chat_id name (r ∷ rs) = ground (
  arith,
  find_provider-upsert_provider p chat_id name rs,
  int_eq_iff r.chat_id chat_id,
  int_eq_iff p.chat_id chat_id,
  int_eq_iff r.chat_id p.chat_id,
  text_eq_iff r.name name,
  text_eq_iff p.name name,
  text_eq_iff r.name p.name,
)

-- After the deletion of a provider, a lookup by its chat and name finds nothing, and every other
-- lookup is as before.
pub find_provider-delete_provider :
    (c : ℤ) (n : Text) (chat_id : ℤ) (name : Text) (ps : List ProviderInstance)
    → find_provider chat_id name (delete_provider c n ps)
      ≡ (if chat_id == c && name == n then none else find_provider chat_id name ps)
unfolding find_provider delete_provider
find_provider-delete_provider c n chat_id name [] = ground arith
find_provider-delete_provider c n chat_id name (r ∷ rs) = ground (
  arith,
  find_provider-delete_provider c n chat_id name rs,
  int_eq_iff r.chat_id chat_id,
  int_eq_iff chat_id c,
  int_eq_iff r.chat_id c,
  text_eq_iff r.name name,
  text_eq_iff name n,
  text_eq_iff r.name n,
)

-- After the deletion of a preset, a lookup by its chat and name finds nothing, and every other
-- lookup is as before.
pub find_preset-delete_preset :
    (c : ℤ) (n : Text) (chat_id : ℤ) (name : Text) (ps : List Preset)
    → find_preset chat_id name (delete_preset c n ps)
      ≡ (if chat_id == c && name == n then none else find_preset chat_id name ps)
unfolding find_preset delete_preset
find_preset-delete_preset c n chat_id name [] = ground arith
find_preset-delete_preset c n chat_id name (r ∷ rs) = ground (
  arith,
  find_preset-delete_preset c n chat_id name rs,
  int_eq_iff r.chat_id chat_id,
  int_eq_iff chat_id c,
  int_eq_iff r.chat_id c,
  text_eq_iff r.name name,
  text_eq_iff name n,
  text_eq_iff r.name n,
)

abbrev pub merged_preset : Preset → Option Preset → Preset
merged_preset p none = p
merged_preset p (some r) = record p {
  chat_id = r.chat_id;
  name = r.name;
  created_at = r.created_at;
}

-- After an upsert of a preset, a lookup by its chat and name finds it, with the date of the row
-- that was there, and every other lookup is as before.
pub find_preset-upsert_preset :
    (p : Preset) (chat_id : ℤ) (name : Text) (ps : List Preset)
    → find_preset chat_id name (upsert_preset p ps) ≡ (
        if is_preset chat_id name p
        then some (merged_preset p (find_preset chat_id name ps))
        else find_preset chat_id name ps)
unfolding find_preset upsert_preset
find_preset-upsert_preset p chat_id name [] = ground arith
find_preset-upsert_preset p chat_id name (r ∷ rs) = ground (
  arith,
  find_preset-upsert_preset p chat_id name rs,
  int_eq_iff r.chat_id chat_id,
  int_eq_iff p.chat_id chat_id,
  int_eq_iff r.chat_id p.chat_id,
  text_eq_iff r.name name,
  text_eq_iff p.name name,
  text_eq_iff r.name p.name,
)
