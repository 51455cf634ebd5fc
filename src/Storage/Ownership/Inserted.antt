-- ===== src/Storage/Ownership/Inserted.antt =====
-- UpsertProviderInstance of internal/storage/repo.go and ownership.
use hyprbot.Storage.Tables.{ProviderInstance, Preset, Db}
use hyprbot.Storage.Statements.{find_chat, upsert_provider, is_provider}
use hyprbot.Storage.Store.{chat_key_holds, insert_provider_row, write_provider}
use hyprbot.Storage.Columns.{Columns, with_columns, provider_columns}
use hyprbot.Prelude.{
  none, some, Option, inr, inl, Bool-cases, arith, [], ◌≢◌, suc, ◌∷◌, All, ◌<◌, ℕ, List,
  text_has_eq, int_has_eq,
}
use hyprbot.Storage.Ownership.{OwnRows, UniqueIds, IdsBelow, Owned, IsOwned}

IdsBelow-suc : (n : ℕ) (ps : List ProviderInstance) → IdsBelow n ps → IdsBelow (suc n) ps
IdsBelow-suc n [] h = tt
IdsBelow-suc n (p ∷ ps) h = (omega arith, IdsBelow-suc n ps h.1)

IdsBelow-upsert :
    (p : ProviderInstance) (ps : List ProviderInstance)
    → IdsBelow p.id ps
    → IdsBelow (suc p.id) (upsert_provider p ps)
unfolding upsert_provider
IdsBelow-upsert p [] h = (omega arith, tt)
IdsBelow-upsert p (r ∷ rs) h = elim (Bool-cases (is_provider p.chat_id p.name r)) [
  | inl e ↦ rw (e, upsert_provider) (omega arith, IdsBelow-suc p.id rs h.1)
  | inr e ↦ rw (e, upsert_provider) (omega arith, IdsBelow-upsert p rs h.1)
]

fresh_id :
    (p : ProviderInstance) (i : ℕ) (ps : List ProviderInstance)
    → p.id ≢ i
    → All (λ r. r.id ≢ i) ps
    → All (λ r. r.id ≢ i) (upsert_provider p ps)
unfolding upsert_provider
fresh_id p i [] n h = (n, tt)
fresh_id p i (r ∷ rs) n h = elim (Bool-cases (is_provider p.chat_id p.name r)) [
  | inl e ↦ rw (e, upsert_provider) h
  | inr e ↦ rw (e, upsert_provider) (h.0, fresh_id p i rs n h.1)
]

UniqueIds-upsert :
    (p : ProviderInstance) (ps : List ProviderInstance)
    → IdsBelow p.id ps
    → UniqueIds ps
    → UniqueIds (upsert_provider p ps)
unfolding upsert_provider
UniqueIds-upsert p [] b u = (tt, tt)
UniqueIds-upsert p (r ∷ rs) b u = elim (Bool-cases (is_provider p.chat_id p.name r)) [
  | inl e ↦ rw (e, upsert_provider) u
  | inr e ↦
      rw (e, upsert_provider) (fresh_id p r.id rs (omega arith) u.0, UniqueIds-upsert p rs b.1 u.1)
]

OwnRows-upsert :
    (q : Preset) (p : ProviderInstance) (ps : List ProviderInstance)
    → q.provider_instance_id < p.id
    → OwnRows q ps
    → OwnRows q (upsert_provider p ps)
unfolding upsert_provider
OwnRows-upsert q p [] b h = (λ e. absurd (omega arith), tt)
OwnRows-upsert q p (r ∷ rs) b h = elim (Bool-cases (is_provider p.chat_id p.name r)) [
  | inl e ↦ rw (e, upsert_provider) h
  | inr e ↦ rw (e, upsert_provider) (h.0, OwnRows-upsert q p rs b h.1)
]

Owned-upsert :
    (p : ProviderInstance) (ps : List ProviderInstance) (qs : List Preset)
    → Owned p.id ps qs
    → Owned (suc p.id) (upsert_provider p ps) qs
Owned-upsert p ps [] h = tt
Owned-upsert p ps (q ∷ qs) h =
    ((omega arith, OwnRows-upsert q p ps h.0.0 h.0.1), Owned-upsert p ps qs h.1)

write_provider-IsOwned :
    (now : ℕ) (p : ProviderInstance) (o : Option Columns) (db : Db)
    → IsOwned db
    → IsOwned (write_provider now p o db).1
write_provider-IsOwned now p none db h = h
write_provider-IsOwned now p (some c) db h =
    elim (Bool-cases (chat_key_holds db.driver (find_chat p.chat_id db.chats))) [
      | inl e ↦ rw e (
          let p' = record (with_columns p c) { id = db.next_provider_id; created_at = now } in
          record {
            ids_below = IdsBelow-upsert p' db.providers h.ids_below;
            unique_ids = UniqueIds-upsert p' db.providers h.ids_below h.unique_ids;
            owned = Owned-upsert p' db.providers db.presets h.owned;
          })
      | inr e ↦ rw e h
    ]

-- Storing a provider, new or not, keeps identifiers unique and every preset with a provider of
-- its own chat.
pub insert_provider_row-IsOwned :
    (now : ℕ) (p : ProviderInstance) (db : Db)
    → IsOwned db
    → IsOwned (insert_provider_row now p db).1
unfolding insert_provider_row
insert_provider_row-IsOwned now p db h = write_provider-IsOwned now p (provider_columns db p) db h
