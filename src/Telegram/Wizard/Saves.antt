-- ===== src/Telegram/Wizard/Saves.antt =====
-- `finishWizard` of internal/telegram/handlers.go where its calls succeed.
use hyprbot.Telegram.Wizard.{optional_secret, provider_of, move, finish}
use hyprbot.Telegram.Wizard.Dialogue.{finish_wizard}
use hyprbot.Telegram.Wizard.Finished.{finish_wizard-Stored}
use hyprbot.Telegram.Wizard.Stored.{Stored, Ended}
use hyprbot.Telegram.Wizard.Steps.{Reaches}
use hyprbot.Telegram.Service.{Service, WizardState, audit}
use hyprbot.Storage.Store
use hyprbot.Storage.Store.{or_default, insert_provider_row}
use hyprbot.Storage.Statements.{find_provider}
use hyprbot.Storage.Lookups.Inserted.{row_of, find_provider-insert_provider_row}
use hyprbot.Storage.Lookups.{merged}
use hyprbot.Storage.Tables.{Db, ProviderInstance}
use hyprbot.System.{Sys, call, lift, attempt, pure, ◌>>=◌}
use hyprbot.System.Calm.{calm_world}
use hyprbot.Redis.{Redis}
use hyprbot.Prelude.{
  ◌≡◌, refl, subst, Option, some, ok, Text, text, ℤ, ℕ, List, arith, int_eq_iff, text_eq_iff,
  text_has_eq, int_has_eq,
}

-- The row that `finishWizard` has written, with the default of the statement.
abbrev pub written : Service → WizardState → Option Text → Option Text → ProviderInstance
written v st ek eh =
    let p = provider_of v st ek eh in
    record p { config_json = or_default p.config_json (text "{}") }

find_inserted :
    (now : ℕ) (p : ProviderInstance) (db : Db)
    → (insert_provider_row now p db).0 ≡ ok tt
    → (row : ProviderInstance) × (find_provider p.chat_id p.name
          (insert_provider_row now p db).1.providers
        ≡ some row)
find_inserted now p db h =
    let (c, _, finds) = find_provider-insert_provider_row now p db h in
    (
      merged (row_of now p c db) (find_provider p.chat_id p.name db.providers),
      ground (
        arith,
        finds p.chat_id p.name,
        int_eq_iff p.chat_id p.chat_id,
        text_eq_iff p.name p.name,
      ),
    )

finish_wizard_succeeds :
    {R : Redis} (v : Service) (r₁ r₂ : Option (List ℕ)) (actor : ℤ) (st : WizardState) (key : Text)
    (s : Sys R) (ek eh : Option Text)
    → optional_secret v r₁ key ≡ ok ek
    → optional_secret v r₂ st.headers_json ≡ ok eh
    → (insert_provider_row s.clock (written v st ek eh) s.db).0 ≡ ok tt
    → (finish_wizard v r₁ r₂ actor st key (calm_world s)).0 ≡ ok tt
unfolding finish_wizard Store.upsert_provider_instance Store.get_provider_instance_id ◌>>=◌ pure
    call lift attempt audit
finish_wizard_succeeds v r₁ r₂ actor st key s ek eh a b h =
    let (row, f) = find_inserted s.clock (written v st ek eh) s.db h in rw (a, b, h, f) refl

-- When a dialogue that was begun for a chat comes to its end, no call fails, both secrets can be
-- encrypted, and the statement that upserts the provider accepts its row, then finishWizard
-- reports success, and the table holds the row of the dialogue, which lookups by the chat and
-- the name find.
pub finish_wizard_saves :
    {R : Redis} (v : Service) (r₁ r₂ : Option (List ℕ)) (chat_id actor : ℤ) (st : WizardState)
    (t key : Text) (s : Sys R) (ek eh : Option Text)
    → Reaches v chat_id st
    → move v st t ≡ finish key
    → optional_secret v r₁ key ≡ ok ek
    → optional_secret v r₂ st.headers_json ≡ ok eh
    → (insert_provider_row s.clock (written v st ek eh) s.db).0 ≡ ok tt
    → let (r, w) = finish_wizard v r₁ r₂ actor st key (calm_world s) in
      (r ≡ ok tt) × Stored v r₁ key chat_id st s.db w.sys.db
finish_wizard_saves v r₁ r₂ chat_id actor st t key s ek eh before e a b h =
    let succeeds = finish_wizard_succeeds v r₁ r₂ actor st key s ek eh a b h in
    let (r, w) = finish_wizard v r₁ r₂ actor st key (calm_world s) in
    (
      succeeds,
      subst (λ r'. Ended v r₁ key chat_id st s.db r' w.sys.db) succeeds
          (finish_wizard-Stored v r₁ r₂ chat_id actor st t key (calm_world s) before e),
    )
