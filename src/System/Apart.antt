-- ===== src/System/Apart.antt =====
-- Properties of the shared state that say nothing of Redis, of messages or of counters, and nothing of
-- the tables `chats`, `chat_admin_cache` and `audit_log`: what most handlers keep.
use hyprbot.Redis.{Redis}
use hyprbot.Storage.Tables.{Chat, AdminRow, AuditEntry, Db}
use hyprbot.Storage.Store
use hyprbot.System.Keeps.{Keeps, Keeps-call, Keeps-bind, Keeps-lift}
use hyprbot.System.{Metrics, CallbackAnswer, Edited, call, Outgoing, Sys}
use hyprbot.Prelude.{none, some, Option, Bool, ℕ, String, Result, List, Text, ℤ}

pub record IsApart {R : Redis} (P : Sys R → Type 0) : Type 0 where
  pub outside :
      (s : Sys R) (redis : R.State) (outbox : List Outgoing) (edits : List Edited)
      (answers : List CallbackAnswer) (metrics : Metrics)
      → P s
      → P (record s {
        redis = redis;
        outbox = outbox;
        edits = edits;
        answers = answers;
        metrics = metrics;
      })
  pub tables :
      (s : Sys R) (cs : List Chat) (rs : List AdminRow) (es : List AuditEntry)
      → P s
      → P (record s { db = record s.db { chats = cs; admin_cache = rs; audit_log = es } })

module _ {R : Redis} {P : Sys R → Type 0} where
  -- A query changes nothing.
  pub Keeps-query :
      {A : Type 0} (f : Db → Result A) (label : String) → Keeps P (Store.query f label)
  Keeps-query f label = Keeps-bind _ _ (Keeps-call _ _ (λ s h. h)) (λ r. Keeps-lift r)

  pub Keeps-execute :
      {A : Type 0} (f : ℕ → Db → Result A × Db) (label : String)
      → ((s : Sys R) → P s → P (record s { db = (f s.clock s.db).1 }))
      → Keeps P (Store.execute f label)
  Keeps-execute f label k = Keeps-bind _ _ (Keeps-call _ _ k) (λ r. Keeps-lift r)

  pub Keeps-list_presets : (c : ℤ) → Keeps P (Store.list_presets c)
  unfolding Store.list_presets
  Keeps-list_presets c = Keeps-query _ _

  pub Keeps-list_providers : (c : ℤ) → Keeps P (Store.list_providers c)
  unfolding Store.list_providers
  Keeps-list_providers c = Keeps-query _ _

  pub Keeps-get_default : (c : ℤ) → Keeps P (Store.get_default_preset_name c)
  unfolding Store.get_default_preset_name
  Keeps-get_default c = Keeps-query _ _

  pub Keeps-get_preset : (c : ℤ) (n : Text) → Keeps P (Store.get_preset_with_provider_by_name c n)
  unfolding Store.get_preset_with_provider_by_name
  Keeps-get_preset c n = Keeps-query _ _

module _ {R : Redis} {P : Sys R → Type 0} ⦃a : IsApart P⦄ where
  -- A call that changes only what the property says nothing of.
  pub Keeps-call_redis :
      {A : Type 0} (f : Sys R → A × R.State) (label : String)
      → Keeps P (call (λ s. ((f s).0, record s { redis = (f s).1 })) label)
  Keeps-call_redis f label = Keeps-call _ _ (λ s h. a.outside s (f s).1 _ _ _ _ h)

  pub Keeps-ensure_chat : (c : ℤ) (k t : Text) → Keeps P (Store.ensure_chat c k t)
  unfolding Store.ensure_chat
  Keeps-ensure_chat c k t = Keeps-execute _ _ (λ s h. a.tables s _ _ _ h)

  pub Keeps-set_admin_cache : (c u : ℤ) (b : Bool) → Keeps P (Store.set_admin_cache c u b)
  unfolding Store.set_admin_cache
  Keeps-set_admin_cache c u b = Keeps-execute _ _ (λ s h. a.tables s _ _ _ h)

  pub Keeps-set_default : (c : ℤ) (n : Text) → Keeps P (Store.set_default_preset c n)
  unfolding Store.set_default_preset Store.update_default
  Keeps-set_default c n = Keeps-execute _ _ (λ s h. a.tables s _ _ _ h)

  pub Keeps-clear_default : (c : ℤ) → Keeps P (Store.clear_default_preset c)
  unfolding Store.clear_default_preset Store.update_default
  Keeps-clear_default c = Keeps-execute _ _ (λ s h. a.tables s _ _ _ h)

  pub Keeps-log_action :
      (is_json : Text → Bool) (e : AuditEntry) → Keeps P (Store.log_action is_json e)
  unfolding Store.log_action
  Keeps-log_action is_json e = Keeps-execute _ _ (λ s h. written s h _)
    where
      written :
          (s : Sys R)
          → P s
          → (o : Option Text) → P (record s { db = (Store.write_audit e o s.db).1 })
      written s h none = h
      written s h (some meta) = a.tables s _ _ _ h
