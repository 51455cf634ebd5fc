-- ===== src/Telegram/Admin/Tenants/Handlers.antt =====
-- The administrators' commands of internal/telegram/handlers.go and the ownership of rows.
use hyprbot.Telegram.Admin.Tenants.{Owns, Owns_apart, Keeps-delete_preset, Keeps-delete_provider}
use hyprbot.Telegram.Apart.{Keeps-reply, Keeps-audit, Keeps-require_admin}
use hyprbot.System.Apart.{
  Keeps-get_default, Keeps-set_default, Keeps-clear_default, Keeps-get_preset,
}
use hyprbot.Telegram.Admin.{
  llm_del, ai_default, ai_preset_del, ai_preset_add, as_admin, new_preset, with_found, add_words,
  preset_add_in, preset_del_as, default_as, llm_del_as, preset_saved, first_default, clear_if,
  preset_deleted, default_set, default_found, provider_deleted,
}
use hyprbot.Telegram.Service.{reply, audit, Service, require_admin}
use hyprbot.Telegram.Context.{Context, Incoming}
use hyprbot.System.Ensures.{
  Ensures-lift, Keeps-of_Ensures, Ensures, Ensures-call, Ensures-attempt, Ensures-of_Keeps,
  Ensures-bind,
}
use hyprbot.System.Keeps.{Keeps-if, Keeps, Keeps-attempt, Keeps-bind, Keeps-pure}
use hyprbot.System.{◌>>◌, ◌>>=◌, Exec, Sys, World}
use hyprbot.Storage.Store
use hyprbot.Storage.Ownership.{IsOwned}
use hyprbot.Storage.Ownership.Joined.{find_provider-OwnRows}
use hyprbot.Storage.Ownership.Presets.{insert_preset_row-IsOwned}
use hyprbot.Redis.{Redis}
use hyprbot.Prelude.{
  refl, arith, text, ◌||◌, is_empty, not_found, ◌≡◌, failed, none, ok, err, some, List, Option,
  Result, Text, ℤ,
}
use hyprbot.Storage.Tables.{Preset, PresetWithProvider, ProviderInstance}
use hyprbot.Storage.Statements.{find_provider}
use hyprbot.Storage.Store.{insert_preset_row}

module _ (v : Service) {R : Redis} (ctx : Context) where
  Keeps-as_admin :
      (f : ℤ → ℤ → Exec R (Unit {0}))
      → ((c u : ℤ) → Keeps Owns (f c u))
      → Keeps Owns (require_admin v ctx >>= as_admin v ctx f)
  Keeps-as_admin f k = Keeps-bind _ _ (Keeps-require_admin v ctx) (λ o. by_rights o)
    where
      by_rights : (o : Option (ℤ × ℤ)) → Keeps Owns (as_admin v ctx f o)
      by_rights none = Keeps-pure tt
      by_rights (some (c, u)) = k c u

  Keeps-audit-reply :
      (c u : ℤ) (a : Text) (m : List (Text × Text)) (t : Text)
      → Keeps (Owns {R = R}) (audit v c u a m >> reply ctx t)
  Keeps-audit-reply c u a m t = Keeps-bind _ _ (Keeps-audit v c u a m) (λ _. Keeps-reply ctx t)

  Keeps-first_default :
      (c : ℤ) (n : Text) (r : Result Text) → Keeps (Owns {R = R}) (first_default v ctx c n r)
  Keeps-first_default c n (ok x) = Keeps-pure tt
  Keeps-first_default c n (err not_found) =
      Keeps-bind _ _ (Keeps-attempt _ (Keeps-set_default c n)) (λ _. Keeps-pure tt)
  Keeps-first_default c n (err (failed e)) = Keeps-pure tt

  Keeps-preset_saved :
      (c u : ℤ) (n p m : Text) (r : Result (Unit {0}))
      → Keeps (Owns {R = R}) (preset_saved v ctx c u n p m r)
  Keeps-preset_saved c u n p m (err e) = Keeps-reply ctx _
  Keeps-preset_saved c u n p m (ok x) =
      Keeps-bind _ _ (Keeps-attempt _ (Keeps-get_default c))
        (λ r. Keeps-bind _ _ (Keeps-first_default c n r) (λ _. Keeps-audit-reply c u _ _ _))

  Keeps-clear_if :
      (c : ℤ) (n : Text) (r : Result Text) → Keeps (Owns {R = R}) (clear_if v ctx c n r)
  Keeps-clear_if c n (err e) = Keeps-pure tt
  Keeps-clear_if c n (ok def) =
      Keeps-if _ _ _
        (λ e. Keeps-bind _ _ (Keeps-attempt _ (Keeps-clear_default c)) (λ _. Keeps-pure tt))
        (λ e. Keeps-pure tt)

  Keeps-preset_deleted :
      (c u : ℤ) (n : Text) (r : Result (Unit {0}))
      → Keeps (Owns {R = R}) (preset_deleted v ctx c u n r)
  Keeps-preset_deleted c u n (err not_found) = Keeps-reply ctx _
  Keeps-preset_deleted c u n (err (failed e)) = Keeps-reply ctx _
  Keeps-preset_deleted c u n (ok x) =
      Keeps-bind _ _ (Keeps-attempt _ (Keeps-get_default c))
        (λ r. Keeps-bind _ _ (Keeps-clear_if c n r) (λ _. Keeps-audit-reply c u _ _ _))

  Keeps-preset_del_as : (n : Text) (c u : ℤ) → Keeps (Owns {R = R}) (preset_del_as v ctx n c u)
  Keeps-preset_del_as n c u =
      Keeps-if (is_empty n) _ _ (λ e. Keeps-reply ctx (text "Usage: /ai_preset_del <name>"))
        (λ e.
          Keeps-bind _ _ (Keeps-attempt _ (Keeps-delete_preset c n))
            (λ r. Keeps-preset_deleted c u n r))

  Keeps-default_set :
      (c u : ℤ) (n : Text) (r : Result (Unit {0}))
      → Keeps (Owns {R = R}) (default_set v ctx c u n r)
  Keeps-default_set c u n (err e) = Keeps-reply ctx _
  Keeps-default_set c u n (ok x) = Keeps-audit-reply c u _ _ _

  Keeps-default_found :
      (c u : ℤ) (n : Text) (r : Result PresetWithProvider)
      → Keeps (Owns {R = R}) (default_found v ctx c u n r)
  Keeps-default_found c u n (err not_found) = Keeps-reply ctx _
  Keeps-default_found c u n (err (failed e)) = Keeps-reply ctx _
  Keeps-default_found c u n (ok x) =
      Keeps-bind _ _ (Keeps-attempt _ (Keeps-set_default c n)) (λ r. Keeps-default_set c u n r)

  Keeps-default_as : (n : Text) (c u : ℤ) → Keeps (Owns {R = R}) (default_as v ctx n c u)
  Keeps-default_as n c u =
      Keeps-if (is_empty n) _ _ (λ e. Keeps-reply ctx (text "Usage: /ai_default <name>"))
        (λ e.
          Keeps-bind _ _ (Keeps-attempt _ (Keeps-get_preset c n))
            (λ r. Keeps-default_found c u n r))

  Keeps-provider_deleted :
      (c u : ℤ) (n : Text) (r : Result (Unit {0}))
      → Keeps (Owns {R = R}) (provider_deleted v ctx c u n r)
  Keeps-provider_deleted c u n (err not_found) = Keeps-reply ctx _
  Keeps-provider_deleted c u n (err (failed e)) = Keeps-reply ctx _
  Keeps-provider_deleted c u n (ok x) = Keeps-audit-reply c u _ _ _

  Keeps-llm_del_as : (n : Text) (c u : ℤ) → Keeps (Owns {R = R}) (llm_del_as v ctx n c u)
  Keeps-llm_del_as n c u =
      Keeps-if (is_empty n) _ _ (λ e. Keeps-reply ctx (text "Usage: /llm_del <name>"))
        (λ e.
          Keeps-bind _ _ (Keeps-attempt _ (Keeps-delete_provider c n))
            (λ r. Keeps-provider_deleted c u n r))

  -- What the store has told of a provider still holds when the preset is stored.
  abbrev Found : ℤ → Text → Result (Result ProviderInstance) → Sys R → Type 0
  Found c n (ok (ok p)) s = Owns s × (find_provider c n s.db.providers ≡ some p)
  Found c n r s = Owns s

  abbrev Looked : ℤ → Text → Result (Result ProviderInstance) → Sys R → Type 0
  Looked c n (ok x) s = Owns s × (Store.found (find_provider c n s.db.providers) ≡ x)
  Looked c n (err e) s = Owns s

  Looked-Found :
      (c : ℤ) (n : Text) (x : Result ProviderInstance) (s : Sys R)
      → Looked c n (ok x) s
      → Found c n (ok x) s
  Looked-Found c n (ok p) s h = (h.0, is_some (find_provider c n s.db.providers) h.1)
    where
      is_some : (o : Option ProviderInstance) → Store.found o ≡ ok p → o ≡ some p
      is_some none e = absurd (ground arith)
      is_some (some r) e = ground arith
  Looked-Found c n (err e) s h = h.0

  looked_up :
      (c : ℤ) (n : Text)
      → Ensures (Owns {R = R}) (Store.get_provider_by_name c n) (λ r. Found c n (ok r))
  unfolding Store.get_provider_by_name
  looked_up c n =
      Ensures-bind (Looked c n) _ _ (Ensures-call _ _ (λ s h. (h, refl)) (λ s h. (h, h)))
        (λ x. Ensures-lift x (λ s h. Looked-Found c n x s h)) (λ e s h. h)

  -- A preset of a chat that names a provider found for that chat.
  upserted :
      (q : Preset) (p : Text) (r : ProviderInstance)
      → q.provider_instance_id ≡ r.id
      → Ensures (Found q.chat_id p (ok (ok r))) (Store.upsert_preset {R = R} q) (λ _. Owns)
  unfolding Store.upsert_preset
  upserted q p r i =
      Ensures-bind (λ _. Owns) _ _ (Ensures-call _ _ (λ s h. stored s h) (λ s h. (h.0, stored s h)))
        (λ x. Ensures-lift x (λ s h. h)) (λ e s h. h)
    where
      stored :
          (s : Sys R)
          → Found q.chat_id p (ok (ok r)) s
          → IsOwned
              (insert_preset_row s.clock
                (record q { params_json = Store.or_default q.params_json (text "{}") })
                s.db).1
      stored s h =
          let (lt, own) =
            find_provider-OwnRows q p s.db.providers r s.db.next_provider_id h.0.unique_ids
              h.0.ids_below h.1 i in
          insert_preset_row-IsOwned s.clock _ s.db h.0 lt own

  Keeps-with_found :
      (c u : ℤ) (n p m t : Text) (r : Result ProviderInstance)
      → Ensures (Found c p (ok r)) (with_found v {R = R} ctx c u n p m t r) (λ _. Owns)
  Keeps-with_found c u n p m t (err not_found) = Ensures-of_Keeps _ (Keeps-reply ctx _)
  Keeps-with_found c u n p m t (err (failed e)) = Ensures-of_Keeps _ (Keeps-reply ctx _)
  Keeps-with_found c u n p m t (ok r) =
      Ensures-bind (λ _. Owns) _ _ (Ensures-attempt _ (upserted (new_preset c n r.id m t) p r refl))
        (λ x. Ensures-of_Keeps _ (Keeps-preset_saved c u n p m x)) (λ e s h. h)

  Keeps-add_words :
      (c u : ℤ) (ws : Text × Text × Text × Text) → Keeps (Owns {R = R}) (add_words v ctx c u ws)
  Keeps-add_words c u (n, p, m, t) =
      Keeps-if (is_empty n || is_empty p || is_empty m || is_empty t) _ _
        (λ e.
          Keeps-reply ctx
            (text "Usage: /ai_preset_add <name> <provider> <model> <system_prompt...>"))
        (λ e. Keeps-of_Ensures _ (
          Ensures-bind (Found c p) _ _ (Ensures-attempt _ (looked_up c p))
            (λ r. Keeps-with_found c u n p m t r) (λ e s h. h)))

  Keeps-preset_add_in :
      (m : Option Incoming) (c u : ℤ) → Keeps (Owns {R = R}) (preset_add_in v ctx m c u)
  Keeps-preset_add_in none c u = Keeps-pure tt
  Keeps-preset_add_in (some msg) c u = Keeps-add_words c u _

  pub Keeps-ai_preset_add : Keeps (Owns {R = R}) (ai_preset_add v ctx)
  unfolding ai_preset_add
  Keeps-ai_preset_add = Keeps-as_admin _ (λ c u. Keeps-preset_add_in _ c u)

  pub Keeps-ai_preset_del : Keeps (Owns {R = R}) (ai_preset_del v ctx)
  unfolding ai_preset_del
  Keeps-ai_preset_del = Keeps-as_admin _ (λ c u. Keeps-preset_del_as _ c u)

  pub Keeps-ai_default : Keeps (Owns {R = R}) (ai_default v ctx)
  unfolding ai_default
  Keeps-ai_default = Keeps-as_admin _ (λ c u. Keeps-default_as _ c u)

  pub Keeps-llm_del : Keeps (Owns {R = R}) (llm_del v ctx)
  unfolding llm_del
  Keeps-llm_del = Keeps-as_admin _ (λ c u. Keeps-llm_del_as _ c u)

-- The four commands on presets and providers keep every preset with a provider of its own chat,
-- whoever sends them and whichever calls fail.
pub handlers-IsOwned :
    {R : Redis} (v : Service) (ctx : Context) (w : World R)
    → IsOwned w.sys.db
    → IsOwned (ai_preset_add v ctx w).1.sys.db
      × IsOwned (ai_preset_del v ctx w).1.sys.db
      × IsOwned (ai_default v ctx w).1.sys.db
      × IsOwned (llm_del v ctx w).1.sys.db
handlers-IsOwned v ctx w h = (
  (Keeps-ai_preset_add v ctx).at w h,
  (Keeps-ai_preset_del v ctx).at w h,
  (Keeps-ai_default v ctx).at w h,
  (Keeps-llm_del v ctx).at w h,
)
