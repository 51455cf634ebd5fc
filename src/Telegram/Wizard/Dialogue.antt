-- ===== src/Telegram/Wizard/Dialogue.antt =====
-- internal/telegram/wizard.go, and `privateText`, `beginLLMAddWizard`, `finishWizard` and
-- `cancelWizard` of internal/telegram/handlers.go, with their calls.
use hyprbot.Telegram.Service.{Service, WizardState, reply, is_admin, audit}
use hyprbot.Telegram.Context.{Context, ChatInfo, Incoming, is_private}
use hyprbot.Storage.Store
use hyprbot.Strings.{trim_space, has_prefix}
use hyprbot.Strings.Decimal.{format_int}
use hyprbot.Redis.{Redis}
use hyprbot.System.{Exec, pure, raise, lift, call, attempt, ◌>>=◌, ◌>>◌}
use hyprbot.Prelude.{
  true, false, failed, ok, err, [], text_has_eq, ◌||◌, Result, not, none, ℕ, ◌++◌, is_empty, ◌∷◌,
  if◌then◌else◌, List, some, Bool, text, Text, Option, ℤ,
}
use hyprbot.Telegram.Wizard.{Move, ignore, say, advance, finish, move, optional_secret, provider_of}

-- "hyprbot:wizard:%d"
unfoldable pub wizard_key : ℤ → Text
wizard_key user = text "hyprbot:wizard:" ++ format_int user

-- `Clear`
unfoldable pub clear_wizard : {R : Redis} → ℤ → Exec R (Unit {0})
clear_wizard {R} user =
    call (λ s. (tt, record s { redis = R.del s.redis (wizard_key user) })) "clear wizard"

-- The state that `beginLLMAddWizard` starts with.
abbrev pub first_state : ℤ → WizardState
first_state chat_id = record {
  target_chat_id = chat_id;
  step = text "kind";
  kind = [];
  name = [];
  base_url = [];
  endpoint = [];
  headers_json = [];
}

-- `wizardStore`
module _ (v : Service) {R : Redis} where
  unfoldable pub set_wizard : ℤ → WizardState → Exec R (Unit {0})
  set_wizard user st =
      call
        (λ s. (
          tt,
          record s {
            redis = R.set s.redis s.clock (wizard_key user) (v.wizard_json.marshal st) v.wizard_ttl;
          },
        ))
        "set wizard"

  abbrev pub unmarshalled : Option WizardState → Exec R (Option WizardState)
  unmarshalled none = raise (failed "wizard state")
  unmarshalled (some st) = pure (some st)

  abbrev pub decoded : Option Text → Exec R (Option WizardState)
  decoded none = pure none
  decoded (some raw) = unmarshalled (v.wizard_json.unmarshal raw)

  unfoldable pub get_wizard : ℤ → Exec R (Option WizardState)
  get_wizard user =
      call (λ s. (R.get s.redis s.clock (wizard_key user), s)) "get wizard" >>= decoded

  abbrev pub started : Context → Result (Unit {0}) → Exec R (Unit {0})
  started ctx (err e) = reply ctx (text "Failed to start wizard.")
  started ctx (ok _) =
      reply ctx (text "Wizard started. Send provider type: openai-compat or custom-http")

  abbrev pub begin_as : Context → ℤ → ℤ → Result Bool → Exec R (Unit {0})
  begin_as ctx user target (err e) = reply ctx (text "Could not verify admin rights. Please retry.")
  begin_as ctx user target (ok false) = reply ctx (text "You are not an admin in that chat.")
  begin_as ctx user target (ok true) =
      attempt (Store.ensure_chat target (text "group") [])
      >> (attempt (set_wizard user (first_state target)) >>= started ctx)

  abbrev pub begin_in : Context → Option ChatInfo → Option ℤ → ℤ → Exec R (Unit {0})
  begin_in ctx none u target = pure tt
  begin_in ctx (some chat) none target = pure tt
  begin_in ctx (some chat) (some user) target =
      if is_private chat
      then attempt (is_admin v target user) >>= begin_as ctx user target
      else pure tt

  -- `beginLLMAddWizard`
  unfoldable pub begin_wizard : Context → ℤ → Exec R (Unit {0})
  begin_wizard ctx target = begin_in ctx ctx.effective_chat ctx.effective_user target

-- `r₁` and `r₂` are what the two encryptions draw for their nonces.
module _ (v : Service) {R : Redis} (r₁ r₂ : Option (List ℕ)) where
  -- `finishWizard`
  unfoldable pub finish_wizard : ℤ → WizardState → Text → Exec R (Unit {0})
  finish_wizard actor st key = do
    enc_key ← lift (optional_secret v r₁ key)
    enc_headers ← lift (optional_secret v r₂ st.headers_json)
    Store.upsert_provider_instance (provider_of v st enc_key enc_headers)
    audit v st.target_chat_id actor (text "provider_add")
        ((text "name", st.name) ∷ (text "kind", st.kind) ∷ [])

  abbrev pub stored : Context → Text → Result (Unit {0}) → Exec R (Unit {0})
  stored ctx t (ok _) = reply ctx t
  stored ctx t (err e) = reply ctx (text "Failed to persist wizard state.")

  abbrev pub finished : Context → ℤ → Result (Unit {0}) → Exec R (Unit {0})
  finished ctx user (err e) = reply ctx (text "Failed to save provider. Try again with /llm_add.")
  finished ctx user (ok _) =
      attempt (clear_wizard user) >> reply ctx (text "Provider saved. Use /llm_list in group.")

  abbrev pub perform : Context → ℤ → WizardState → Move → Exec R (Unit {0})
  perform ctx user st ignore = pure tt
  perform ctx user st (say t) = reply ctx t
  perform ctx user st (advance st' t) = attempt (set_wizard v user st') >>= stored ctx t
  perform ctx user st (finish key) = attempt (finish_wizard user st key) >>= finished ctx user

  abbrev pub loaded : Context → ℤ → Text → Result (Option WizardState) → Exec R (Unit {0})
  loaded ctx user t (err e) = reply ctx (text "Wizard state error. Start again with /llm_add.")
  loaded ctx user t (ok none) = pure tt
  loaded ctx user t (ok (some st)) = perform ctx user st (move v st t)

  abbrev pub private_in : Context → Option ChatInfo → Option ℤ → Option Incoming → Exec R (Unit {0})
  private_in ctx none u m = pure tt
  private_in ctx (some chat) none m = pure tt
  private_in ctx (some chat) (some user) none = pure tt
  private_in ctx (some chat) (some user) (some msg) =
      let t = trim_space msg.text in
      if not (is_private chat) || is_empty t || has_prefix t (text "/")
      then pure tt
      else attempt (get_wizard v user) >>= loaded ctx user t

  -- `privateText`
  unfoldable pub private_text : Context → Exec R (Unit {0})
  private_text ctx = private_in ctx ctx.effective_chat ctx.effective_user ctx.effective_message

abbrev pub canceled : {R : Redis} → Context → Result (Unit {0}) → Exec R (Unit {0})
canceled ctx (err e) = reply ctx (text "Failed to cancel wizard right now.")
canceled ctx (ok _) = reply ctx (text "Wizard canceled.")

abbrev pub cancel_in : {R : Redis} → Context → Option ChatInfo → Option ℤ → Exec R (Unit {0})
cancel_in ctx none u = pure tt
cancel_in ctx (some chat) none = pure tt
cancel_in ctx (some chat) (some user) =
    if is_private chat then attempt (clear_wizard user) >>= canceled ctx else pure tt

-- `cancelWizard`
unfoldable pub cancel_wizard : {R : Redis} → Context → Exec R (Unit {0})
cancel_wizard ctx = cancel_in ctx ctx.effective_chat ctx.effective_user
