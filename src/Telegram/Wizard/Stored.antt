-- ===== src/Telegram/Wizard/Stored.antt =====
-- `finishWizard` of internal/telegram/handlers.go and UpsertProviderInstance of internal/storage/repo.go:
-- the row that the end of a dialogue leaves in the table.
use hyprbot.Telegram.Wizard.{is_mode, is_openai, optional_secret, provider_of}
use hyprbot.Telegram.Wizard.Steps.{HasKind, HasName, HasMode}
use hyprbot.Telegram.Service.{Service, WizardState}
use hyprbot.Telegram.Commands.{is_provider_name}
use hyprbot.Storage.Store.{or_default, insert_provider_row, write_provider, chat_key_holds}
use hyprbot.Storage.Statements.{find_chat}
use hyprbot.Storage.Tables.{Db, ProviderInstance}
use hyprbot.Storage.Columns.{
  Columns, provider_columns, json_column, json_or_null, provider_columns_lem,
}
use hyprbot.Storage.Lookups.Inserted.{Finds, row_of, find_provider-insert_provider_row}
use hyprbot.Prelude.{
  ◌≡◌, refl, subst, ◌⊎◌, inl, inr, Option, some, none, Result, ok, err, Text, text, text_eq, ℤ, ℕ,
  List, [], ◌∷◌, true, Bool-cases, if◌then◌else◌, Error, failed, text_has_eq,
}

-- A row that an answered dialogue stands for: it is for the chat, with the name and the address that
-- were given, a valid name, one of the two kinds, for the OpenAI kind one of the two modes in its
-- configuration, and the encrypted key.
pub record IsComplete (v : Service) (random : Option (List ℕ)) (key : Text) (chat_id : ℤ)
    (st : WizardState) (db : Db) (row : ProviderInstance) : Type 0 where
  pub chat : row.chat_id ≡ chat_id
  pub answers : (row.name ≡ st.name) × (row.base_url ≡ st.base_url)
  pub name : is_provider_name row.name ≡ true
  pub kind :
      (row.kind ≡ text "custom_http")
      ⊎ ((row.kind ≡ text "openai_compat")
          × ((mode : Text) × (is_mode mode ≡ true)
              × (json_column db.driver db.jsonb
                    (or_default (v.marshal_config ((text "endpoint", mode) ∷ [])) (text "{}"))
                  ≡ some row.config_json)))
  pub api_key :
      (o : Option Text) × (optional_secret v random key ≡ ok o)
      × (json_or_null db.driver db.jsonb o ≡ some row.enc_api_key)

write_outcome :
    (now : ℕ) (p : ProviderInstance) (o : Option Columns) (db : Db)
    → ((write_provider now p o db).0 ≡ ok tt)
      ⊎ ((e : Error) × ((write_provider now p o db).0 ≡ err e)
          × ((write_provider now p o db).1 ≡ db))
write_outcome now p none db = inr (_, refl, refl)
write_outcome now p (some c) db =
    elim (Bool-cases (chat_key_holds db.driver (find_chat p.chat_id db.chats))) [
      | inl e ↦ inl (rw e refl)
      | inr e ↦ inr (failed "upsert provider", rw e refl, rw e refl)
    ]

-- An insert writes the row, or it fails and changes nothing.
insert_outcome :
    (now : ℕ) (p : ProviderInstance) (db : Db)
    → ((insert_provider_row now p db).0 ≡ ok tt)
      ⊎ ((e : Error) × ((insert_provider_row now p db).0 ≡ err e)
          × ((insert_provider_row now p db).1 ≡ db))
unfolding insert_provider_row
insert_outcome now p db = write_outcome now p (provider_columns db p) db

-- The table holds such a row, which every lookup by its chat and its name finds, while every other
-- finds what it found before.
abbrev pub Stored : Service → Option (List ℕ) → Text → ℤ → WizardState → Db → Db → Type 0
Stored v random key chat_id st db db' =
    (row : ProviderInstance) × IsComplete v random key chat_id st db row × Finds db db' row

-- What is known after the end of a dialogue: if it reports success the row is stored, and if it
-- reports an error the row is stored or nothing has changed.
abbrev pub Ended :
    {A : Type 0} → Service → Option (List ℕ) → Text → ℤ → WizardState → Db → Result A → Db → Type 0
Ended v random key chat_id st db (ok _) db' = Stored v random key chat_id st db db'
Ended v random key chat_id st db (err e) db' = (db' ≡ db) ⊎ Stored v random key chat_id st db db'

is_openai_compat : is_openai (text "openai_compat") ≡ true
unfolding is_openai text text_eq
is_openai_compat = refl

module _ (v : Service) (r₁ : Option (List ℕ)) (key : Text) (chat_id : ℤ) (st : WizardState)
    (k : HasKind st) (n : HasName st) (m : HasMode st) (same : st.target_chat_id ≡ chat_id)
    (db : Db) where
  -- The row of `finishWizard`, with the default of the statement.
  abbrev pub asked_row : Option Text → Option Text → ProviderInstance
  asked_row ek eh =
      let p = provider_of v st ek eh in
      record p { config_json = or_default p.config_json (text "{}") }

  kind_of :
      {c : Text}
      → HasKind st
      → json_column db.driver db.jsonb (
          or_default
            (v.marshal_config
              (if is_openai st.kind then (text "endpoint", st.endpoint) ∷ [] else []))
            (text "{}"))
        ≡ some c
      → (st.kind ≡ text "custom_http")
        ⊎ ((st.kind ≡ text "openai_compat")
            × ((mode : Text) × (is_mode mode ≡ true)
                × (json_column db.driver db.jsonb
                      (or_default (v.marshal_config ((text "endpoint", mode) ∷ [])) (text "{}"))
                    ≡ some c)))
  kind_of (inr e) h = inl e
  kind_of {c} (inl e) h =
      let o : is_openai st.kind ≡ true = rw e is_openai_compat in
      let config =
        subst
          (λ b.
            json_column db.driver db.jsonb (
              or_default (v.marshal_config (if b then (text "endpoint", st.endpoint) ∷ [] else []))
                (text "{}"))
            ≡ some c)
          o h in
      inr (e, (st.endpoint, m o, config))

  row_of-IsComplete :
      (ek eh : Option Text) (now : ℕ) (c : Columns)
      → optional_secret v r₁ key ≡ ok ek
      → provider_columns db (asked_row ek eh) ≡ some c
      → IsComplete v r₁ key chat_id st db (row_of now (asked_row ek eh) c db)
  row_of-IsComplete ek eh now c secret columns =
      let (enc, _, config) = provider_columns_lem db (asked_row ek eh) c columns in
      record {
        chat = same;
        answers = (refl, refl);
        name = n;
        kind = kind_of k config;
        api_key = (ek, secret, enc);
      }

  pub inserted :
      (ek eh : Option Text) (now : ℕ)
      → optional_secret v r₁ key ≡ ok ek
      → Ended v r₁ key chat_id st db
          (insert_provider_row now (asked_row ek eh) db).0
          (insert_provider_row now (asked_row ek eh) db).1
  inserted ek eh now secret = elim (insert_outcome now (asked_row ek eh) db) [
    | inl e ↦
        let (c, columns, finds) = find_provider-insert_provider_row now (asked_row ek eh) db e in
        rw e (_, row_of-IsComplete ek eh now c secret columns, finds)
    | inr (x, e, unchanged) ↦ rw e (inl unchanged)
  ]

  -- Whatever the statement answers, nothing has changed or the row is there.
  pub unchanged_or_Stored :
      {A : Type 0} (r : Result A) {db' : Db}
      → Ended v r₁ key chat_id st db r db'
      → (db' ≡ db) ⊎ Stored v r₁ key chat_id st db db'
  unchanged_or_Stored (ok x) h = inr h
  unchanged_or_Stored (err x) h = h
