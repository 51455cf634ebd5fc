-- ===== src/Telegram/Service.antt =====
-- internal/telegram/service.go and the helpers at the end of handlers.go: replies, admin rights,
-- rate limits, deep links and the audit log.
use hyprbot.Prelude.{
  clamped, is_positive, is_empty, int_has_eq, ◌∷◌, pos, false, [], true, some, none, ◌++◌, ℕ, ◌||◌,
  ok, err, Result, Bool, text, if◌then◌else◌, Option, List, Text, ℤ, text_has_eq, ◌==◌,
}
use hyprbot.System.{gets, pure, call, attempt, ◌>>=◌, ◌>>◌, Exec, Keyboard}
use hyprbot.Encoding.Json.{Codec}
use hyprbot.Telegram.Context.{Context, Incoming, ChatInfo, is_private}
use hyprbot.Storage.Store
use hyprbot.Crypto.Aead.{Aead}
use hyprbot.Redis.{Redis}
use hyprbot.Crypto.Manager.{Manager, Envelope}
use hyprbot.Strings.{is_blank}
use hyprbot.Queue.RateLimiter.{allow, Verdict}
use hyprbot.Queue.Stream.{AskJob}
use hyprbot.Strings.Decimal.{format_int}

-- The state that the private chat with an administrator is in: `llmWizardState`.
pub record WizardState : Type 0 where
  pub target_chat_id : ℤ
  pub step : Text
  pub kind : Text
  pub name : Text
  pub base_url : Text
  pub endpoint : Text
  pub headers_json : Text

-- What the service is built with, and the libraries that it calls. `member_status` is the status that
-- `getChatMember` reports of a user in a chat; `marshal_meta` is `json.Marshal` of an audit entry's
-- fields; `is_headers_json` says whether a text unmarshals into a `map[string]string`; `edit_refusal`
-- is the error that Telegram answers an edit of a message with, if it does not accept it.
pub record Service : Type 0 where
  pub aead : Aead
  pub envelope_json : Codec Envelope
  pub job_json : Codec AskJob
  pub wizard_json : Codec WizardState
  pub marshal_meta : List (Text × Text) → Text
  pub marshal_config : List (Text × Text) → Text
  pub is_json : Text → Bool
  pub is_headers_json : Text → Bool
  pub query_escape : Text → Text
  pub format_clock : ℕ → Text
  pub hour_label : ℕ → Text
  pub member_status : ℤ → ℤ → Text
  pub edit_refusal : ℤ → ℤ → Text → Keyboard → Option Text
  pub crypto : Manager
  pub rate_limit : Option ℕ
  pub admin_cache_ttl : ℕ
  pub wizard_ttl : ℕ
  pub bot_username : Text
  pub own_username : Text
  pub access_mode : Text
  pub admin_user_id : ℤ

-- `NewService`: `s` holds what is taken over as it is. Durations are in nanoseconds.
unfoldable pub new_service : Service → ℤ → ℤ → Service
new_service s admin_cache_ttl wizard_ttl = record s {
  admin_cache_ttl = if is_positive admin_cache_ttl then clamped admin_cache_ttl else 600000000000;
  wizard_ttl = if is_positive wizard_ttl then clamped wizard_ttl else 1200000000000;
}

-- `userID`
unfoldable pub user_id : Context → ℤ
user_id ctx = elim ctx.effective_user [ none ↦ pos 0 | some u ↦ u ]

-- "hyprbot:admin:%d:%d"
unfoldable pub admin_key : ℤ → ℤ → Text
admin_key chat_id user = text "hyprbot:admin:" ++ (format_int chat_id ++ b':' ∷ format_int user)

-- status == "administrator" || status == "creator"
unfoldable pub is_admin_status : Text → Bool
is_admin_status status = status == text "administrator" || status == text "creator"

module _ {R : Redis} where
  -- `SendMessage` to a chat.
  unfoldable pub send_message : ℤ → Text → Keyboard → Exec R (Unit {0})
  send_message chat_id t keyboard =
      call
        (λ s. (
          tt,
          record s {
            outbox =
                s.outbox
                ++ record { chat_id = chat_id; reply_to = none; keyboard = keyboard; text = t }
                  ∷ [];
          },
        ))
        "send message"

  abbrev pub reply_to_chat : Option ChatInfo → Text → Exec R (Unit {0})
  reply_to_chat none t = pure tt
  reply_to_chat (some chat) t = send_message chat.id t []

  -- `reply`
  unfoldable pub reply : Context → Text → Exec R (Unit {0})
  reply ctx t = reply_to_chat ctx.effective_chat t

  -- `ensureChat`
  unfoldable pub ensure_chat_of : Incoming → Exec R (Unit {0})
  ensure_chat_of msg =
      attempt (Store.ensure_chat msg.chat.id msg.chat.kind msg.chat.title) >>= λ _. pure tt

-- `deepLink`
unfoldable pub deep_link : Service → Text → Text
deep_link v param =
    let username = if is_empty v.bot_username then v.own_username else v.bot_username in
    if is_blank username
    then []
    else text "https://t.me/" ++ (username ++ (text "?start=" ++ v.query_escape param))

module _ (v : Service) {R : Redis} where
  -- The part of `isAdmin` behind the cache.
  abbrev pub fetch_admin : ℤ → ℤ → Exec R Bool
  fetch_admin chat_id user = do
    status ← call (λ s. (v.member_status chat_id user, s)) "get chat member"
    attempt (
        call
          (λ s. (
            tt,
            record s {
              redis =
                  R.set s.redis s.clock (admin_key chat_id user)
                    (if is_admin_status status then text "1" else text "0") v.admin_cache_ttl;
            },
          ))
          "set admin cache")
    attempt (Store.set_admin_cache chat_id user (is_admin_status status))
    pure (is_admin_status status)

  abbrev pub cached_admin : ℤ → ℤ → Result (Option Text) → Exec R Bool
  cached_admin chat_id user (ok (some value)) = pure (value == text "1")
  cached_admin chat_id user (ok none) = fetch_admin chat_id user
  cached_admin chat_id user (err e) = fetch_admin chat_id user

  -- `isAdmin`
  unfoldable pub is_admin : ℤ → ℤ → Exec R Bool
  is_admin chat_id user =
      attempt (call (λ s. (R.get s.redis s.clock (admin_key chat_id user), s)) "read admin cache")
      >>= cached_admin chat_id user

  abbrev pub ensure_message : Option Incoming → Exec R (Unit {0})
  ensure_message none = pure tt
  ensure_message (some msg) = ensure_chat_of msg

  -- A reply whose error is ignored, and no rights.
  abbrev pub refuse : Context → Text → Exec R (Option (ℤ × ℤ))
  refuse ctx t = attempt (reply ctx t) >>= λ _. pure none

  abbrev pub with_rights : Context → ℤ → ℤ → Result Bool → Exec R (Option (ℤ × ℤ))
  with_rights ctx chat_id user (err e) = refuse ctx (text "Failed to verify admin rights.")
  with_rights ctx chat_id user (ok false) =
      refuse ctx (text "Only chat admins can run this command.")
  with_rights ctx chat_id user (ok true) =
      ensure_message ctx.effective_message >>= λ _. pure (some (chat_id, user))

  abbrev pub require_in : Context → Option ChatInfo → Option ℤ → Exec R (Option (ℤ × ℤ))
  require_in ctx none u = pure none
  require_in ctx (some chat) none = pure none
  require_in ctx (some chat) (some u) =
      if is_private chat
      then refuse ctx (text "Run this command in group/supergroup.")
      else attempt (is_admin chat.id u) >>= with_rights ctx chat.id u

  -- `requireAdmin`: the chat and the user, or `none` for `ok == false`.
  unfoldable pub require_admin : Context → Exec R (Option (ℤ × ℤ))
  require_admin ctx = require_in ctx ctx.effective_chat ctx.effective_user

  abbrev pub rate_verdict : Context → Result Verdict → Exec R Bool
  rate_verdict ctx (err e) = pure true
  rate_verdict ctx (ok x) =
      if x.allowed
      then pure true
      else attempt
          (reply ctx (text "Rate limit exceeded. Try again after " ++ v.format_clock x.reset_at))
        >>= λ _. pure false

  abbrev pub limited : Option ℕ → ℤ → ℤ → Context → Exec R Bool
  limited none chat_id user ctx = pure true
  limited (some limit) chat_id user ctx =
      if user == pos 0
      then pure true
      else gets (λ s. s.clock) >>= λ now.
          attempt (allow v.hour_label R limit chat_id user now) >>= rate_verdict ctx

  -- `allowRate`
  unfoldable pub allow_rate : ℤ → ℤ → Context → Exec R Bool
  allow_rate chat_id user ctx = limited v.rate_limit chat_id user ctx

  -- `audit`; its error is ignored.
  unfoldable pub audit : ℤ → ℤ → Text → List (Text × Text) → Exec R (Unit {0})
  audit chat_id user action meta =
      attempt (
        Store.log_action v.is_json (record {
          chat_id = chat_id;
          user_id = user;
          action = action;
          meta_json = v.marshal_meta meta;
        }))
      >>= λ _. pure tt
