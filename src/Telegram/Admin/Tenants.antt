-- ===== src/Telegram/Admin/Tenants.antt =====
-- The handlers of internal/telegram/handlers.go and the ownership of rows in internal/storage.
pub mod Handlers
use hyprbot.System.Apart.{IsApart, Keeps-execute}
use hyprbot.System.Keeps.{Keeps}
use hyprbot.System.{Sys}
use hyprbot.Storage.Store
use hyprbot.Storage.Ownership.{IsOwned}
use hyprbot.Storage.Ownership.Presets.{delete_preset_row-IsOwned}
use hyprbot.Storage.Ownership.Deleted.{delete_provider_row-IsOwned}
use hyprbot.Storage.Tables.{AuditEntry, AdminRow, Chat, Db}
use hyprbot.Redis.{Redis}
use hyprbot.Prelude.{ℤ, List, Text}

abbrev pub Owns : {R : Redis} → Sys R → Type 0
Owns s = IsOwned s.db

-- The other tables do not matter.
IsOwned-apart :
    (db : Db) (cs : List Chat) (rs : List AdminRow) (es : List AuditEntry)
    → IsOwned db
    → IsOwned (record db { chats = cs; admin_cache = rs; audit_log = es })
IsOwned-apart db cs rs es h = record {
  ids_below = h.ids_below;
  unique_ids = h.unique_ids;
  owned = h.owned;
}

instance pub Owns_apart : {R : Redis} → IsApart (Owns {R = R})
Owns_apart = record {
  outside = λ s redis outbox edits answers metrics h. h;
  tables = λ s cs rs es h. IsOwned-apart s.db cs rs es h;
}

module _ {R : Redis} where
  pub Keeps-delete_preset : (c : ℤ) (n : Text) → Keeps (Owns {R = R}) (Store.delete_preset c n)
  unfolding Store.delete_preset
  Keeps-delete_preset c n = Keeps-execute _ _ (λ s h. delete_preset_row-IsOwned c n s.db h)

  pub Keeps-delete_provider :
      (c : ℤ) (n : Text) → Keeps (Owns {R = R}) (Store.delete_provider_by_name c n)
  unfolding Store.delete_provider_by_name
  Keeps-delete_provider c n = Keeps-execute _ _ (λ s h. delete_provider_row-IsOwned c n s.db h)
