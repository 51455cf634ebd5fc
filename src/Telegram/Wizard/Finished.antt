-- ===== src/Telegram/Wizard/Finished.antt =====
-- `finishWizard` of internal/telegram/handlers.go with its calls, whichever fail.
use hyprbot.Telegram.Wizard.Stored.{Stored, Ended, asked_row, inserted, unchanged_or_Stored}
use hyprbot.Telegram.Wizard.{move, finish, optional_secret, provider_of}
use hyprbot.Telegram.Wizard.Dialogue.{finish_wizard}
use hyprbot.Telegram.Wizard.Steps.{Reaches, wizard_complete, HasKind, HasName, HasMode}
use hyprbot.Telegram.Service.{Service, WizardState}
use hyprbot.Telegram.Apart.{Keeps-audit}
use hyprbot.Storage.Store
use hyprbot.Storage.Store.{or_default, insert_provider_row, write_provider, chat_key_holds}
use hyprbot.Storage.Tables.{Db}
use hyprbot.System.Apart.{IsApart, Keeps-query}
use hyprbot.System.Ensures.{Ensures, Ensures-call, Ensures-lift, Ensures-bind, Ensures-fact}
use hyprbot.System.Keeps.{Keeps, Keeps-bind, Keeps-pure}
use hyprbot.System.{Exec, World, Sys}
use hyprbot.Redis.{Redis}
use hyprbot.Prelude.{
  ◌≡◌, refl, subst, inl, inr, Option, Result, ok, err, Text, ℤ, ℕ, List, sym, text_has_eq,
}

module _ (v : Service) (r₁ : Option (List ℕ)) (key : Text) (chat_id : ℤ) (st : WizardState)
    (k : HasKind st) (n : HasName st) (m : HasMode st) (same : st.target_chat_id ≡ chat_id)
    (db : Db) where
  module _ {R : Redis} where
    abbrev Kept : Sys R → Type 0
    Kept s = Stored v r₁ key chat_id st db s.db

    abbrev Unchanged : Sys R → Type 0
    Unchanged s = s.db ≡ db

    instance Kept-IsApart : IsApart Kept
    Kept-IsApart = record {
      outside = λ s redis outbox edits answers metrics h. h;
      tables = λ s cs rs es h. h;
    }

    abbrev After : {A : Type 0} → Result A → Sys R → Type 0
    After r s = Ended v r₁ key chat_id st db r s.db

    -- What keeps the row also ends with it.
    After-of_Keeps : {A : Type 0} (m : Exec R A) → Keeps Kept m → Ensures Kept m After
    After-of_Keeps {A} m k = record { at = λ w h. either (m w).0 (m w).1.sys (k.at w h) }
      where
        either : (r : Result A) (s : Sys R) → Kept s → After r s
        either (ok a) s h = h
        either (err e) s h = inr h

    Ensures-insert :
        (ek eh : Option Text)
        → optional_secret v r₁ key ≡ ok ek
        → Ensures Unchanged
            (Store.execute
              (λ now. insert_provider_row now (asked_row v r₁ key chat_id st k n m same db ek eh))
              "upsert provider")
            After
    Ensures-insert ek eh secret =
        Ensures-bind (elim [ ok r ↦ After r | err e ↦ After {A = Unit {0}} (err e) ]) _ _
          (Ensures-call _ _ (λ s e. effect s e)
            (λ s e.
              (inl e, unchanged_or_Stored v r₁ key chat_id st k n m same db (f s).0 (effect s e))))
          (λ r. Ensures-lift r (λ s h. h)) (λ e s h. h)
      where
        f : Sys R → Result (Unit {0}) × Db
        f s = insert_provider_row s.clock (asked_row v r₁ key chat_id st k n m same db ek eh) s.db

        effect : (s : Sys R) → Unchanged s → Ended v r₁ key chat_id st db (f s).0 (f s).1
        effect s e =
            subst
              (λ d.
                Ended v r₁ key chat_id st db
                  (insert_provider_row s.clock (asked_row v r₁ key chat_id st k n m same db ek eh)
                    d).0
                  (insert_provider_row s.clock (asked_row v r₁ key chat_id st k n m same db ek eh)
                    d).1)
              (sym e) (inserted v r₁ key chat_id st k n m same db ek eh s.clock secret)

    Ensures-upsert :
        (ek eh : Option Text)
        → optional_secret v r₁ key ≡ ok ek
        → Ensures Unchanged (Store.upsert_provider_instance (provider_of v st ek eh)) After
    unfolding Store.upsert_provider_instance Store.get_provider_instance_id
    Ensures-upsert ek eh secret =
        Ensures-bind After _ _ (Ensures-insert ek eh secret)
          (λ x. After-of_Keeps _ (Keeps-bind _ _ (Keeps-query _ _) (λ r. Keeps-pure _)))
          (λ e s h. h)

    Ensures-finish :
        (r₂ : Option (List ℕ)) (actor : ℤ)
        → Ensures Unchanged (finish_wizard v r₁ r₂ actor st key) After
    unfolding finish_wizard
    Ensures-finish r₂ actor =
        Ensures-bind (λ r s. (optional_secret v r₁ key ≡ r) × Unchanged s) _ _
          (Ensures-lift _ (λ s h. (refl, h)))
          (λ ek. Ensures-fact _ (λ secret.
            Ensures-bind (λ r. Unchanged) _ _ (Ensures-lift _ (λ s h. h))
              (λ eh.
                Ensures-bind After _ _ (Ensures-upsert ek eh secret)
                  (λ x. After-of_Keeps _ (Keeps-audit v _ _ _ _)) (λ e s h. h))
              (λ e s h. inl h)))
          (λ e s h. inl h.1)

-- When a dialogue that was begun for a chat comes to its end, after whatever texts and whichever
-- calls fail, finishWizard leaves in the table of providers a row for that chat, with the name
-- and the address of the dialogue, a valid name, one of the two kinds, one of the two endpoint
-- modes in its configuration if it is an OpenAI provider, and the encrypted key, if it reports
-- success; if it reports an error, such a row is there or the database is unchanged. Where the
-- row is there, lookups by the chat and the name find it, with the identifier and date of the
-- one that was there, and all others find what they found before.
pub finish_wizard-Stored :
    {R : Redis} (v : Service) (r₁ r₂ : Option (List ℕ)) (chat_id actor : ℤ) (st : WizardState)
    (t key : Text) (w : World R)
    → Reaches v chat_id st
    → move v st t ≡ finish key
    → Ended v r₁ key chat_id st w.sys.db
        (finish_wizard v r₁ r₂ actor st key w).0
        (finish_wizard v r₁ r₂ actor st key w).1.sys.db
finish_wizard-Stored v r₁ r₂ chat_id actor st t key w before e =
    let (k, n, m, same) = wizard_complete v chat_id st t key before e in
    (Ensures-finish v r₁ key chat_id st k n m same w.sys.db r₂ actor).at w refl
