-- ===== src/Storage/Ownership.antt =====
-- internal/storage: which chat the rows of a preset and of its provider belong to.
use hyprbot.Storage.Tables.{
  postgres, sqlite, Driver, ProviderInstance, Preset, PresetWithProvider, Db,
}
use hyprbot.Storage.Statements.{
  find_chat, kept, find_provider, upsert_provider, delete_provider, is_provider, find_preset,
  upsert_preset, delete_preset, is_preset, join_provider, with_provider,
}
use hyprbot.Storage.Store.{
  chat_key_holds, insert_provider_row, delete_provider_row, insert_preset_row, preset_keys_hold,
  delete_preset_row, preset_with_provider, cascade,
}
use hyprbot.Prelude.{
  refl, eqb, subst, ok, sym, none, ap, ◌∙◌, int_eq_iff, some, Option, inr, inl, ◌≡◌, Bool-cases,
  arith, [], ◌≢◌, suc, ◌∷◌, All, Text, ◌<◌, ℤ, ℕ, List, text_has_eq, int_has_eq, ◌==◌,
}
pub mod Inserted
pub mod Deleted
pub mod Presets
pub mod Joined

-- The rows with a preset's provider identifier belong to the preset's chat.
abbrev pub OwnRows : Preset → List ProviderInstance → Type 0
OwnRows q = All (λ p. p.id ≡ q.provider_instance_id → p.chat_id ≡ q.chat_id)

abbrev pub UniqueIds : List ProviderInstance → Type 0
UniqueIds [] = Unit
UniqueIds (p ∷ ps) = All (λ r. r.id ≢ p.id) ps × UniqueIds ps

abbrev pub IdsBelow : ℕ → List ProviderInstance → Type 0
IdsBelow n = All (λ p. p.id < n)

abbrev pub Owned : ℕ → List ProviderInstance → List Preset → Type 0
Owned n ps = All (λ q. (q.provider_instance_id < n) × OwnRows q ps)

-- Identifiers are unique and below the next one, and presets belong with their providers' chats.
pub record IsOwned (db : Db) : Type 0 where
  pub ids_below : IdsBelow db.next_provider_id db.providers
  pub unique_ids : UniqueIds db.providers
  pub owned : Owned db.next_provider_id db.providers db.presets
