-- ===== src/Storage/Ownership/Deleted.antt =====
-- DeleteProviderByName of internal/storage/repo.go and ownership.
use hyprbot.Storage.Tables.{postgres, sqlite, Driver, ProviderInstance, Preset, Db}
use hyprbot.Storage.Statements.{kept, delete_provider, is_provider, join_provider, with_provider}
use hyprbot.Storage.Store.{delete_provider_row, cascade}
use hyprbot.Prelude.{
  none, some, Option, inr, inl, Bool-cases, [], ◌∷◌, All, Text, ℤ, ℕ, List, text_has_eq, int_has_eq,
}
use hyprbot.Storage.Ownership.{UniqueIds, Owned, IsOwned}

All-delete :
    (P : ProviderInstance → Type 0) (c : ℤ) (n : Text) (ps : List ProviderInstance)
    → All P ps
    → All P (delete_provider c n ps)
unfolding delete_provider
All-delete P c n [] h = tt
All-delete P c n (p ∷ ps) h = elim (Bool-cases (is_provider c n p)) [
  | inl e ↦ rw (e, delete_provider) (All-delete P c n ps h.1)
  | inr e ↦ rw (e, delete_provider) (h.0, All-delete P c n ps h.1)
]

UniqueIds-delete :
    (c : ℤ) (n : Text) (ps : List ProviderInstance)
    → UniqueIds ps
    → UniqueIds (delete_provider c n ps)
unfolding delete_provider
UniqueIds-delete c n [] h = tt
UniqueIds-delete c n (p ∷ ps) h = elim (Bool-cases (is_provider c n p)) [
  | inl e ↦ rw (e, delete_provider) (UniqueIds-delete c n ps h.1)
  | inr e ↦ rw (e, delete_provider) (All-delete _ c n ps h.0, UniqueIds-delete c n ps h.1)
]

Owned-delete :
    (k : ℕ) (c : ℤ) (n : Text) (ps : List ProviderInstance) (qs : List Preset)
    → Owned k ps qs
    → Owned k (delete_provider c n ps) qs
Owned-delete k c n ps [] h = tt
Owned-delete k c n ps (q ∷ qs) h =
    ((h.0.0, All-delete _ c n ps h.0.1), Owned-delete k c n ps qs h.1)

Owned-kept :
    (k : ℕ) (ps : List ProviderInstance) (o : Option ProviderInstance) (q : Preset)
    (qs : List Preset)
    → Owned k ps (q ∷ [])
    → Owned k ps qs
    → Owned k ps (kept o q qs)
Owned-kept k ps none q qs h hs = hs
Owned-kept k ps (some _) q qs h hs = (h.0, hs)

Owned-with_provider :
    (k : ℕ) (rs ps : List ProviderInstance) (qs : List Preset)
    → Owned k ps qs
    → Owned k ps (with_provider rs qs)
unfolding with_provider
Owned-with_provider k rs ps [] h = tt
Owned-with_provider k rs ps (q ∷ qs) h =
    Owned-kept k ps (join_provider q.provider_instance_id rs) q (with_provider rs qs) (h.0, tt)
      (Owned-with_provider k rs ps qs h.1)

Owned-cascade :
    (d : Driver) (k : ℕ) (rs ps : List ProviderInstance) (qs : List Preset)
    → Owned k ps qs
    → Owned k ps (cascade d rs qs)
unfolding cascade
Owned-cascade sqlite k rs ps qs h = h
Owned-cascade postgres k rs ps qs h = Owned-with_provider k rs ps qs h

-- Deleting a provider keeps the ownership of all presets, under both schemas.
pub delete_provider_row-IsOwned :
    (c : ℤ) (n : Text) (db : Db) → IsOwned db → IsOwned (delete_provider_row c n db).1
unfolding delete_provider_row
delete_provider_row-IsOwned c n db h = record {
  ids_below = All-delete _ c n _ h.ids_below;
  unique_ids = UniqueIds-delete c n _ h.unique_ids;
  owned = Owned-cascade db.driver _ _ _ _ (Owned-delete _ c n db.providers db.presets h.owned);
}
