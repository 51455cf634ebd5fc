-- ===== src/Storage/Ownership/Presets.antt =====
-- UpsertPreset and DeletePreset of internal/storage/repo.go and ownership.
use hyprbot.Storage.Tables.{ProviderInstance, Preset, Db}
use hyprbot.Storage.Statements.{upsert_preset, delete_preset, is_preset}
use hyprbot.Storage.Columns.{preset_column}
use hyprbot.Storage.Store.{write_preset, insert_preset_row, preset_keys_hold, delete_preset_row}
use hyprbot.Prelude.{
  none, some, Option, int_eq_iff, inr, inl, ◌≡◌, Bool-cases, arith, [], ◌∷◌, Text, ◌<◌, ℤ, ℕ, List,
  text_has_eq, int_has_eq,
}
use hyprbot.Storage.Ownership.{OwnRows, Owned, IsOwned}

Owned-upsert_preset :
    (k : ℕ) (ps : List ProviderInstance) (p : Preset) (qs : List Preset)
    → p.provider_instance_id < k
    → OwnRows p ps
    → Owned k ps qs
    → Owned k ps (upsert_preset p qs)
unfolding upsert_preset
Owned-upsert_preset k ps p [] b o h = ((b, o), tt)
Owned-upsert_preset k ps p (q ∷ qs) b o h = elim (Bool-cases (is_preset p.chat_id p.name q)) [
  | inl e ↦
      let same : q.chat_id ≡ p.chat_id = ground (arith, int_eq_iff q.chat_id p.chat_id) in
      rw (e, upsert_preset) ((b, rw same o), h.1)
  | inr e ↦ rw (e, upsert_preset) (h.0, Owned-upsert_preset k ps p qs b o h.1)
]

write_preset-IsOwned :
    (now : ℕ) (p : Preset) (o : Option Text) (db : Db)
    → IsOwned db
    → p.provider_instance_id < db.next_provider_id
    → OwnRows p db.providers
    → IsOwned (write_preset now p o db).1
write_preset-IsOwned now p none db h b o = h
write_preset-IsOwned now p (some t) db h b o = elim (Bool-cases (preset_keys_hold p db)) [
  | inl e ↦ rw e (record {
    ids_below = h.ids_below;
    unique_ids = h.unique_ids;
    owned =
        Owned-upsert_preset _ db.providers (record p { params_json = t; created_at = now })
          db.presets b o h.owned;
  })
  | inr e ↦ rw e h
]

-- Storing a preset keeps ownership if the rows of its provider belong to its chat and its
-- identifier has been given out.
pub insert_preset_row-IsOwned :
    (now : ℕ) (p : Preset) (db : Db)
    → IsOwned db
    → p.provider_instance_id < db.next_provider_id
    → OwnRows p db.providers
    → IsOwned (insert_preset_row now p db).1
unfolding insert_preset_row
insert_preset_row-IsOwned now p db h b o = write_preset-IsOwned now p (preset_column db p) db h b o

Owned-delete_preset :
    (k : ℕ) (ps : List ProviderInstance) (c : ℤ) (n : Text) (qs : List Preset)
    → Owned k ps qs
    → Owned k ps (delete_preset c n qs)
unfolding delete_preset
Owned-delete_preset k ps c n [] h = tt
Owned-delete_preset k ps c n (q ∷ qs) h = elim (Bool-cases (is_preset c n q)) [
  | inl e ↦ rw (e, delete_preset) (Owned-delete_preset k ps c n qs h.1)
  | inr e ↦ rw (e, delete_preset) (h.0, Owned-delete_preset k ps c n qs h.1)
]

-- Deleting a preset keeps the ownership of all others.
pub delete_preset_row-IsOwned :
    (c : ℤ) (n : Text) (db : Db) → IsOwned db → IsOwned (delete_preset_row c n db).1
unfolding delete_preset_row
delete_preset_row-IsOwned c n db h = record {
  ids_below = h.ids_below;
  unique_ids = h.unique_ids;
  owned = Owned-delete_preset _ db.providers c n db.presets h.owned;
}
