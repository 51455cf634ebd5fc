-- ===== src/Telegram/Callbacks/Hidden.antt =====
-- Who sees the providers of a chat: /llm_list of internal/telegram/handlers.go, and the buttons of
-- callbacks.go.
use hyprbot.Telegram.Callbacks.{
  on_callback, pressed, act, action_of, answer_callback, answer_to, for_admin, Action,
  list_providers, act_llm_add, act_llm_list,
}
use hyprbot.Telegram.Admin.Rights.{IsQuiet, IsRefusal, message_to, guarded, Uncached}
use hyprbot.Telegram.Lists.{llm_list, llm_list_as}
use hyprbot.Telegram.Service.{Service, require_admin, admin_key, is_admin_status}
use hyprbot.Telegram.Context.{Context, ChatInfo, CallbackQuery}
use hyprbot.Strings.{trim_space}
use hyprbot.System.{CallbackAnswer, Exec, Sys, World, Outgoing, Edited, ◌>>=◌}
use hyprbot.System.Ensures.{Ensures, Ensures-pure, Ensures-bind, Ensures-of_Keeps}
use hyprbot.System.Keeps.{Keeps, Keeps-call, Keeps-attempt, Keeps-bind, Keeps-pure}
use hyprbot.Redis.{Redis}
use hyprbot.Prelude.{
  refl, subst, append_assoc, ◌∙◌, append-nil, ap, inr, none, sym, [], true, text, inl, false, Bool,
  ◌≢◌, ◌∷◌, ◌⊎◌, Text, All, ◌≡◌, some, ◌++◌, List, Option, ℤ,
}

-- The messages after those of `o` are refusals.
abbrev pub OnlyRefusals : List Outgoing → List Outgoing → Type 0
OnlyRefusals o o' = (new : List Outgoing) × (o' ≡ o ++ new) × All (λ m. IsRefusal m.text) new

-- The actions that show or add providers.
abbrev pub ForAdmins : Option Action → Type 0
ForAdmins o = (o ≡ some list_providers) ⊎ (o ≡ some act_llm_add) ⊎ (o ≡ some act_llm_list)

abbrev Told : {R : Redis} → List Edited → List Outgoing → Sys R → Type 0
Told e o s = (s.edits ≡ e) × OnlyRefusals o s.outbox

All-append_last :
    (ms : List Outgoing) (m : Outgoing)
    → All (λ x. IsRefusal x.text) ms
    → IsRefusal m.text
    → All (λ x. IsRefusal x.text) (ms ++ m ∷ [])
All-append_last [] m h k = (k, tt)
All-append_last (x ∷ ms) m h k = (h.0, All-append_last ms m h.1 k)

Told-IsQuiet : {R : Redis} (e : List Edited) (o : List Outgoing) → IsQuiet (Told {R = R} e o)
Told-IsQuiet e o = record {
  redis = λ s r h. h;
  admins = λ s rs h. h;
  refusal = λ s c t i h.
      let (new, same, all) = h.1 in
      (
        h.0,
        (
          new ++ message_to c t ∷ [],
          ap (λ x. x ++ message_to c t ∷ []) same ∙ append_assoc o new (message_to c t ∷ []),
          All-append_last new (message_to c t) all i,
        ),
      );
}

Keeps-answer_to :
    {R : Redis} {P : Sys R → Type 0} (q : Option CallbackQuery) (t : Text) (b : Bool)
    → ((s : Sys R) (xs : List CallbackAnswer) → P s → P (record s { answers = xs }))
    → Keeps P (answer_to q t b)
Keeps-answer_to none t b k = Keeps-pure tt
Keeps-answer_to (some q) t b k =
    Keeps-bind _ _ (Keeps-attempt _ (Keeps-call _ _ (λ s h. k s _ h))) (λ r. Keeps-pure tt)

-- An update of the user in the chat.
abbrev of_user : Context → ChatInfo → ℤ → Context
of_user ctx chat u = record ctx { effective_chat = some chat; effective_user = some u }

module _ {R : Redis} (e : List Edited) (o : List Outgoing) (v : Service) (ctx : Context)
    (chat : ChatInfo) (u : ℤ) (plain : is_admin_status (v.member_status chat.id u) ≡ false) where
  abbrev Cold : Sys R → Type 0
  Cold = Uncached (Told-IsQuiet e o) v chat.id u plain

  Keeps-answer_callback :
      {P : Sys R → Type 0} (t : Text) (b : Bool)
      → ((s : Sys R) (xs : List CallbackAnswer) → P s → P (record s { answers = xs }))
      → Keeps P (answer_callback (of_user ctx chat u) t b)
  unfolding answer_callback
  Keeps-answer_callback t b k = Keeps-answer_to ctx.callback_query t b k

  refused_button :
      (t : Text) (f : ℤ → Exec R (Unit {0}))
      → Ensures Cold
          (require_admin v (of_user ctx chat u) >>= for_admin v (of_user ctx chat u) t f)
          (λ r. Told e o)
  unfolding require_admin
  refused_button t f =
      guarded (Told-IsQuiet e o) v chat.id u plain (λ r. Told e o) (of_user ctx chat u) chat
        (for_admin v (of_user ctx chat u) t f) refl
        (Ensures-of_Keeps _ (Keeps-answer_callback t true (λ s xs h. h))) (λ x s h. h)

  hidden_action :
      (t : Text) (x : Option Action)
      → ForAdmins x
      → Ensures Cold (act v (of_user ctx chat u) t x) (λ r. Told e o)
  hidden_action t x (inl q) = rw q (refused_button _ _)
  hidden_action t x (inr (inl q)) = rw q (refused_button _ _)
  hidden_action t x (inr (inr q)) = rw q (refused_button _ _)

  hidden_button :
      (q : CallbackQuery)
      → ForAdmins (action_of (trim_space q.payload))
      → Ensures Cold (pressed v (of_user ctx chat u) (some q)) (λ r. Told e o)
  hidden_button q f =
      Ensures-bind (λ r. Cold) _ _
        (Ensures-of_Keeps _ (Keeps-answer_callback [] false (λ s xs h. h)))
        (λ x. hidden_action _ _ f) (λ x s h. h.1)

  hidden_list : Ensures Cold (llm_list (of_user ctx chat u) v) (λ r. Told e o)
  unfolding llm_list require_admin
  hidden_list =
      guarded (Told-IsQuiet e o) v chat.id u plain (λ r. Told e o) (of_user ctx chat u) chat
        (llm_list_as (of_user ctx chat u)) refl (Ensures-pure tt (λ s h. h)) (λ x s h. h)

-- A user who is no administrator of the chat by Telegram's word, and for whom Redis holds no
-- "1", is shown no provider, neither by the command /llm_list nor by the press of a button that
-- lists or adds providers: from the same state each of the two edits no message and sends
-- nothing but refusals, whichever calls fail.
pub providers_hidden :
    {R : Redis} (v : Service) (command press : Context) (chat : ChatInfo) (u : ℤ)
    (q : CallbackQuery) (w : World R)
    → command.effective_chat ≡ some chat
    → command.effective_user ≡ some u
    → press.effective_chat ≡ some chat
    → press.effective_user ≡ some u
    → press.callback_query ≡ some q
    → ForAdmins (action_of (trim_space q.payload))
    → R.get w.sys.redis w.sys.clock (admin_key chat.id u) ≢ some (text "1")
    → is_admin_status (v.member_status chat.id u) ≡ false
    → let s = (llm_list command v w).1.sys in
      let s' = (on_callback v press w).1.sys in
      (s.edits ≡ w.sys.edits)
      × OnlyRefusals w.sys.outbox s.outbox
      × (s'.edits ≡ w.sys.edits)
      × OnlyRefusals w.sys.outbox s'.outbox
unfolding on_callback
providers_hidden {R} v command press chat u q w here who here' who' button f cold plain =
    let a = subst Listed (sym listing) listed in
    let b = subst Pushed (sym pressing) pushed in (a.0, a.1, b.0, b.1)
  where
    listing : command ≡ of_user command chat u
    listing = λ i. record command { effective_chat = here i; effective_user = who i }

    there : Context
    there = record press {
      effective_chat = some chat;
      effective_user = some u;
      callback_query = some q;
    }

    pressing : press ≡ there
    pressing = λ i. record press {
      effective_chat = here' i;
      effective_user = who' i;
      callback_query = button i;
    }

    Listed : Context → Type 0
    Listed c = Told w.sys.edits w.sys.outbox (llm_list c v w).1.sys

    Pushed : Context → Type 0
    Pushed c = Told w.sys.edits w.sys.outbox (on_callback v c w).1.sys

    start : Told w.sys.edits w.sys.outbox w.sys
    start = (refl, ([], sym (append-nil w.sys.outbox), tt))

    listed : Told w.sys.edits w.sys.outbox (llm_list (of_user command chat u) v w).1.sys
    listed = (hidden_list w.sys.edits w.sys.outbox v command chat u plain).at w (cold, start)

    pushed : Told w.sys.edits w.sys.outbox (on_callback v there w).1.sys
    pushed = (hidden_button w.sys.edits w.sys.outbox v there chat u plain q f).at w (cold, start)
