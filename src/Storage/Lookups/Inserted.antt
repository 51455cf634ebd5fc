-- ===== src/Storage/Lookups/Inserted.antt =====
-- Lookups after UpsertProviderInstance and UpsertPreset of internal/storage/repo.go, with the JSON columns of
-- either schema.
use hyprbot.Storage.Tables.{Db, ProviderInstance, Preset}
use hyprbot.Storage.Columns.{Columns, provider_columns, preset_column, with_columns}
use hyprbot.Storage.Statements.{find_provider, is_provider, find_preset, is_preset, find_chat}
use hyprbot.Storage.Store.{
  insert_provider_row, write_provider, chat_key_holds, insert_preset_row, write_preset,
  preset_keys_hold,
}
use hyprbot.Storage.Lookups.{
  merged, merged_preset, find_provider-upsert_provider, find_preset-upsert_preset,
}
use hyprbot.Prelude.{
  ◌≡◌, refl, Option, some, none, ok, Text, ℤ, ℕ, Bool-cases, inl, inr, arith, if◌then◌else◌,
}

-- The row that an insert writes, before it is merged with one that is there.
abbrev pub row_of : ℕ → ProviderInstance → Columns → Db → ProviderInstance
row_of now p c db = record (with_columns p c) { id = db.next_provider_id; created_at = now }

-- What every lookup finds after the row was written.
abbrev pub Finds : Db → Db → ProviderInstance → Type 0
Finds db db' row =
    (chat_id : ℤ) (name : Text)
    → find_provider chat_id name db'.providers ≡ (
        if is_provider chat_id name row
        then some (merged row (find_provider chat_id name db.providers))
        else find_provider chat_id name db.providers)

write_provider-Finds :
    (now : ℕ) (p : ProviderInstance) (o : Option Columns) (db : Db)
    → (write_provider now p o db).0 ≡ ok tt
    → (c : Columns) × (o ≡ some c) × Finds db (write_provider now p o db).1 (row_of now p c db)
write_provider-Finds now p none db h = absurd (ground arith)
write_provider-Finds now p (some c) db h =
    elim (Bool-cases (chat_key_holds db.driver (find_chat p.chat_id db.chats))) [
      | inl e ↦ (
        c,
        refl,
        λ chat_id name.
            rw e (find_provider-upsert_provider (row_of now p c db) chat_id name db.providers),
      )
      | inr e ↦ absurd (ground arith)
    ]

-- After a statement that upserts a provider and succeeds, the JSON columns accepted its texts,
-- and a lookup by its chat and name finds what the columns hold of it, with the identifier and
-- date of the row that was there, while every other lookup is as before.
pub find_provider-insert_provider_row :
    (now : ℕ) (p : ProviderInstance) (db : Db)
    → (insert_provider_row now p db).0 ≡ ok tt
    → (c : Columns) × (provider_columns db p ≡ some c)
      × Finds db (insert_provider_row now p db).1 (row_of now p c db)
unfolding insert_provider_row
find_provider-insert_provider_row now p db h =
    write_provider-Finds now p (provider_columns db p) db h

abbrev pub preset_row : ℕ → Preset → Text → Preset
preset_row now p params = record p { params_json = params; created_at = now }

abbrev pub FindsPreset : Db → Db → Preset → Type 0
FindsPreset db db' row =
    (chat_id : ℤ) (name : Text)
    → find_preset chat_id name db'.presets ≡ (
        if is_preset chat_id name row
        then some (merged_preset row (find_preset chat_id name db.presets))
        else find_preset chat_id name db.presets)

write_preset-FindsPreset :
    (now : ℕ) (p : Preset) (o : Option Text) (db : Db)
    → (write_preset now p o db).0 ≡ ok tt
    → (t : Text) × (o ≡ some t) × FindsPreset db (write_preset now p o db).1 (preset_row now p t)
write_preset-FindsPreset now p none db h = absurd (ground arith)
write_preset-FindsPreset now p (some t) db h = elim (Bool-cases (preset_keys_hold p db)) [
  | inl e ↦ (
    t,
    refl,
    λ chat_id name. rw e (find_preset-upsert_preset (preset_row now p t) chat_id name db.presets),
  )
  | inr e ↦ absurd (ground arith)
]

-- After a statement that upserts a preset and succeeds, the JSON column accepted its parameters,
-- and a lookup by its chat and name finds it with what the column holds of them and with the
-- date of the row that was there, while every other lookup is as before.
pub find_preset-insert_preset_row :
    (now : ℕ) (p : Preset) (db : Db)
    → (insert_preset_row now p db).0 ≡ ok tt
    → (t : Text) × (preset_column db p ≡ some t)
      × FindsPreset db (insert_preset_row now p db).1 (preset_row now p t)
unfolding insert_preset_row
find_preset-insert_preset_row now p db h = write_preset-FindsPreset now p (preset_column db p) db h
