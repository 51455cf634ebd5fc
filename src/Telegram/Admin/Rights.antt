-- ===== src/Telegram/Admin/Rights.antt =====
-- `requireAdmin` of internal/telegram/handlers.go: who may change what a chat has stored.
use hyprbot.Telegram.Service.{
  require_in, reply_to_chat, refuse, Service, require_admin, admin_key, is_admin, is_admin_status,
  reply, send_message, fetch_admin, cached_admin, with_rights,
}
use hyprbot.Telegram.Admin.{llm_del, ai_default, ai_preset_del, ai_preset_add, as_admin}
use hyprbot.Telegram.Context.{is_private, Context, ChatInfo}
use hyprbot.System.Ensures.{
  Ensures-from, Ensures-fact, Ensures, Ensures-pure, Ensures-call, Ensures-attempt,
  Ensures-of_Keeps, Ensures-bind,
}
use hyprbot.System.Keeps.{Keeps-lift, Keeps, Keeps-call, Keeps-attempt, Keeps-bind, Keeps-pure}
use hyprbot.Storage.Store
use hyprbot.Storage.Tables.{AdminRow, Chat, Preset, ProviderInstance, Db}
use hyprbot.Redis.{Redis}
use hyprbot.Prelude.{
  ◌∷◌, ◌++◌, [], ◌⊎◌, Error, inr, inl, Bool-cases, text_eq_iff, refl, arith, true, text, none, ◌≢◌,
  err, some, false, ◌≡◌, ok, ℤ, Option, Text, Bool, List, Result,
}
use hyprbot.System.{Outgoing, ◌>>=◌, World, Exec, Sys}

-- The rows of providers, presets and chats, that administrators change.
abbrev pub Rows : Type 0
Rows = List ProviderInstance × List Preset × List Chat

abbrev pub rows : Db → Rows
rows db = (db.providers, db.presets, db.chats)

abbrev pub Unchanged : {R : Redis} → Rows → Sys R → Type 0
Unchanged rs s = rows s.db ≡ rs

-- What a user without rights is told.
abbrev pub IsRefusal : Text → Type 0
IsRefusal t =
    (t ≡ text "Run this command in group/supergroup.")
    ⊎ (t ≡ text "Failed to verify admin rights.")
    ⊎ (t ≡ text "Only chat admins can run this command.")

abbrev pub message_to : ℤ → Text → Outgoing
message_to c t = record { chat_id = c; reply_to = none; keyboard = []; text = t }

-- Properties that the test of a user's rights and its refusal keep.
pub record IsQuiet {R : Redis} (P : Sys R → Type 0) : Type 0 where
  pub redis : (s : Sys R) (r : R.State) → P s → P (record s { redis = r })
  pub admins :
      (s : Sys R) (rs : List AdminRow)
      → P s
      → P (record s { db = record s.db { admin_cache = rs } })
  pub refusal :
      (s : Sys R) (c : ℤ) (t : Text)
      → IsRefusal t
      → P s
      → P (record s { outbox = s.outbox ++ message_to c t ∷ [] })

-- No rights came out.
abbrev Refused : {A : Type 0} → Result (Option A) → Type 0
Refused (ok (some a)) = ⊥
Refused (ok none) = Unit
Refused (err e) = Unit

abbrev IsNotTrue : Result Bool → Type 0
IsNotTrue r = r ≢ ok true

module _ {R : Redis} {P : Sys R → Type 0} (q : IsQuiet P) where
  Keeps-reply_to : (c : Option ChatInfo) (t : Text) → IsRefusal t → Keeps P (reply_to_chat c t)
  unfolding send_message
  Keeps-reply_to none t i = Keeps-pure tt
  Keeps-reply_to (some c) t i = Keeps-call _ _ (λ s h. q.refusal s c.id t i h)

  Keeps-reply : (ctx : Context) (t : Text) → IsRefusal t → Keeps P (reply ctx t)
  unfolding reply
  Keeps-reply ctx t i = Keeps-reply_to ctx.effective_chat t i

  Keeps-set_admin_cache : (c u : ℤ) (b : Bool) → Keeps P (Store.set_admin_cache c u b)
  unfolding Store.set_admin_cache
  Keeps-set_admin_cache c u b =
      Keeps-bind _ _ (Keeps-call _ _ (λ s h. q.admins s _ h)) (λ r. Keeps-lift r)

  abbrev IsStatus : Text → Result Text → Sys R → Type 0
  IsStatus x (ok st) s = (st ≡ x) × P s
  IsStatus x (err e) s = P s

  module _ (v : Service) (c u : ℤ) (plain : is_admin_status (v.member_status c u) ≡ false) where
    fetch_admin_plain : Ensures P (fetch_admin v c u) (λ r s. IsNotTrue r × P s)
    fetch_admin_plain =
        Ensures-bind (IsStatus (v.member_status c u)) _ _
          (Ensures-call _ _ (λ s h. (refl, h)) (λ s h. (h, h)))
          (λ st. Ensures-fact _ (λ same.
            Ensures-bind (λ r. P) _ _
              (Ensures-of_Keeps _ (Keeps-attempt _ (Keeps-call _ _ (λ s h. q.redis s _ h))))
              (λ a.
                Ensures-bind (λ r. P) _ _
                  (Ensures-of_Keeps _ (Keeps-attempt _ (Keeps-set_admin_cache c u _)))
                  (λ a'. Ensures-pure _ (λ s h. (ground arith, h))) (λ e s h. (ground arith, h)))
              (λ e s h. (ground arith, h))))
          (λ e s h. (ground arith, h))

    -- `cachedAdmin` on anything but "1".
    cached_admin_plain :
        (r : Result (Option Text))
        → r ≢ ok (some (text "1"))
        → Ensures P (cached_admin v {R = R} c u r) (λ r s. IsNotTrue r × P s)
    cached_admin_plain (ok (some x)) n =
        Ensures-pure _ (λ s h. (λ e. n (ground (arith, text_eq_iff x (text "1"))), h))
    cached_admin_plain (ok none) n = fetch_admin_plain
    cached_admin_plain (err e) n = fetch_admin_plain

    -- The state that the cache is read in.
    abbrev pub Uncached : Sys R → Type 0
    Uncached s = (R.get s.redis s.clock (admin_key c u) ≢ some (text "1")) × P s

    is_admin_plain : Ensures Uncached (is_admin v c u) (λ r s. IsNotTrue r × P s)
    unfolding is_admin
    is_admin_plain =
        Ensures-bind (elim [ ok r ↦ λ s. (r ≢ ok (some (text "1"))) × P s | err e ↦ λ s. P s ]) _ _
          (Ensures-attempt _ (
            Ensures-call _ _ (λ s h. (λ e. h.0 (ground arith), h.1))
              (λ s h. ((λ e. absurd (ground arith), h.1), (λ e. absurd (ground arith), h.1)))))
          (λ r. Ensures-fact _ (λ n. cached_admin_plain r n)) (λ e s h. (ground arith, h))

    refused :
        (ctx : Context) (t : Text)
        → IsRefusal t
        → Ensures P (refuse v {R = R} ctx t) (λ r s. Refused r × P s)
    refused ctx t i =
        Ensures-bind (λ r. P) _ _ (Ensures-of_Keeps _ (Keeps-attempt _ (Keeps-reply ctx t i)))
          (λ a. Ensures-pure _ (λ s h. (tt, h))) (λ e s h. (tt, h))

    with_rights-Refused :
        (ctx : Context) (r : Result Bool)
        → IsNotTrue r
        → Ensures P (with_rights v {R = R} ctx c u r) (λ r s. Refused r × P s)
    with_rights-Refused ctx (ok true) n = absurd (n refl)
    with_rights-Refused ctx (ok false) n = refused ctx _ (inr (inr refl))
    with_rights-Refused ctx (err e) n = refused ctx _ (inr (inl refl))

    abbrev Verdict : Result (Result Bool) → Sys R → Type 0
    Verdict (ok r) s = IsNotTrue r × P s
    Verdict (err e) s = P s

    require_in-Refused :
        (ctx : Context) (chat : ChatInfo)
        → chat.id ≡ c
        → Ensures Uncached (require_in v {R = R} ctx (some chat) (some u)) (λ r s. Refused r × P s)
    require_in-Refused ctx chat here = elim (Bool-cases (is_private chat)) [
      | inl e ↦ rw e (Ensures-from _ (λ s h. h.1) (refused ctx _ (inl refl)))
      | inr e ↦ rw e (
          rw here (
            Ensures-bind Verdict _ _ (Ensures-attempt _ is_admin_plain)
              (λ r. Ensures-fact _ (λ n. with_rights-Refused ctx r n)) (λ e s h. (tt, h))))
    ]

    -- What runs behind the test of a user without rights.
    pub guarded :
        {B : Type 0} (Q : Result B → Sys R → Type 0) (ctx : Context) (chat : ChatInfo)
        (f : Option (ℤ × ℤ) → Exec R B)
        → chat.id ≡ c
        → Ensures P (f none) Q
        → ((e : Error) (s : Sys R) → P s → Q (err e) s)
        → Ensures Uncached (require_in v {R = R} ctx (some chat) (some u) >>= f) Q
    guarded Q ctx chat f here k l =
        Ensures-bind (λ r s. Refused r × P s) _ _ (require_in-Refused ctx chat here)
          (λ a. Ensures-fact _ (λ n. behind a n)) (λ e s h. l e s h.1)
      where
        behind : (a : Option (ℤ × ℤ)) → Refused (ok a) → Ensures P (f a) Q
        behind none n = k
        behind (some x) n = absurd n

-- A method leaves the rows of administrators alone.
abbrev pub Spares : {R : Redis} {A : Type 0} → World R → Exec R A → Type 0
Spares w m = rows (m w).1.sys.db ≡ rows w.sys.db

Unchanged-IsQuiet : {R : Redis} (rs : Rows) → IsQuiet (Unchanged {R = R} rs)
Unchanged-IsQuiet rs = record { redis = λ s r h. h; admins = λ s a h. h; refusal = λ s c t i h. h }

require_admin-Spares :
    {R : Redis} (v : Service) (ctx : Context) (chat : ChatInfo) (u : ℤ) (w : World R)
    → ctx.effective_chat ≡ some chat
    → ctx.effective_user ≡ some u
    → R.get w.sys.redis w.sys.clock (admin_key chat.id u) ≢ some (text "1")
    → is_admin_status (v.member_status chat.id u) ≡ false
    → (f : ℤ → ℤ → Exec R (Unit {0})) → Spares w (require_admin v ctx >>= as_admin v ctx f)
unfolding require_admin
require_admin-Spares v ctx chat u w here who cold plain f =
    let ctx' = record ctx { effective_chat = some chat; effective_user = some u } in
    let all =
      guarded (Unchanged-IsQuiet (rows w.sys.db)) v chat.id u plain (λ r. Unchanged (rows w.sys.db))
        ctx' chat (as_admin v ctx f) refl (Ensures-pure tt (λ s h. h)) (λ e s h. h) in
    rw (here, who) (all.at w (cold, refl))

-- For a user who is no administrator of the chat by Telegram's word, and for whom Redis holds no
-- "1", the four commands on presets and providers leave the rows of providers, presets and chats
-- as they are, whichever calls fail.
pub only_admins :
    {R : Redis} (v : Service) (ctx : Context) (chat : ChatInfo) (u : ℤ) (w : World R)
    → ctx.effective_chat ≡ some chat
    → ctx.effective_user ≡ some u
    → R.get w.sys.redis w.sys.clock (admin_key chat.id u) ≢ some (text "1")
    → is_admin_status (v.member_status chat.id u) ≡ false
    → Spares w (ai_preset_add v ctx)
      × Spares w (ai_preset_del v ctx)
      × Spares w (ai_default v ctx)
      × Spares w (llm_del v ctx)
unfolding ai_preset_add ai_preset_del ai_default llm_del
only_admins v ctx chat u w here who cold plain =
    let by_rights = require_admin-Spares v ctx chat u w here who cold plain in
    (by_rights _, by_rights _, by_rights _, by_rights _)
