-- ===== src/System.antt =====
-- What the bot's processes share, and the calls that reach it: Redis, the database, Telegram.
-- Every such call can fail, before or after it has taken effect. Which calls fail is an explicit
-- schedule, so a theorem holds for every pattern of failures.
pub mod Keeps
pub mod Ensures
pub mod Apart
pub mod Calm
use hyprbot.Prelude.{
  ℕ, ◌+◌, ◌≡◌, refl, Bool, true, false, Option, none, some, List, [], ◌∷◌, ◌++◌, String, Text, ℤ,
  Error, not_found, failed, Result, ok, err,
}
use hyprbot.Redis.{Redis}
use hyprbot.Storage.Tables.{Db}

-- What becomes of a call: it is done; it is lost, and changed nothing; or it took effect and its
-- answer was lost.
pub data Fate : Type 0 where
  done lost unanswered : Fate

-- `InlineKeyboardButton`: it opens an address, or sends a callback.
pub record Button : Type 0 where
  pub label : Text
  pub url : Text
  pub callback_data : Text

-- `InlineKeyboardMarkup`, empty for none.
abbrev pub Keyboard : Type 0
Keyboard = List (List Button)

-- A message to Telegram: `SendMessage`, with `ReplyParameters` if there are any.
pub record Outgoing : Type 0 where
  pub chat_id : ℤ
  pub reply_to : Option ℤ
  pub keyboard : Keyboard
  pub text : Text

-- A message that was given another text: `EditText`.
pub record Edited : Type 0 where
  pub chat_id : ℤ
  pub message_id : ℤ
  pub keyboard : Keyboard
  pub text : Text

-- `AnswerCallbackQuery`
pub record CallbackAnswer : Type 0 where
  pub query_id : Text
  pub text : Text
  pub show_alert : Bool

-- internal/metrics/metrics.go
pub record Metrics : Type 0 where
  pub enqueued_jobs : ℕ
  pub processed_jobs : ℕ
  pub failed_jobs : ℕ
  pub updates_total : ℕ

pub record Sys (R : Redis) : Type 0 where
  pub redis : R.State
  pub db : Db
  -- nanoseconds
  pub clock : ℕ
  pub outbox : List Outgoing
  pub edits : List Edited
  pub answers : List CallbackAnswer
  pub metrics : Metrics

pub record World (R : Redis) : Type 0 where
  pub sys : Sys R
  pub fates : List Fate

-- A method: its result, and the world after it.
abbrev pub Exec : Redis → Type 0 → Type 0
Exec R A = World R → Result A × World R

module _ {R : Redis} {A : Type 0} where
  unfoldable pub pure : A → Exec R A
  pure a w = (ok a, w)

  unfoldable pub raise : Error → Exec R A
  raise e w = (err e, w)

  unfoldable pub lift : Result A → Exec R A
  lift r w = (r, w)

  -- Reads the state.
  unfoldable pub gets : (Sys R → A) → Exec R A
  gets f w = (ok (f w.sys), w)

  -- `_ = m`, and the tests of an `err`: the result, errors included, becomes a value.
  unfoldable pub attempt : Exec R A → Exec R (Result A)
  attempt m w = let (r, w') = m w in (ok r, w')

  abbrev after : Fate → (Sys R → A × Sys R) → String → Sys R → List Fate → Result A × World R
  after done f label s fates = let (a, s') = f s in (ok a, record { sys = s'; fates = fates })
  after lost f label s fates = (err (failed label), record { sys = s; fates = fates })
  after unanswered f label s fates =
      let (a, s') = f s in (err (failed label), record { sys = s'; fates = fates })

  abbrev scheduled : List Fate → (Sys R → A × Sys R) → String → Sys R → Result A × World R
  scheduled [] f label s = after done f label s []
  scheduled (x ∷ fates) f label s = after x f label s fates

  -- One call to a service. `label` is the text that its error is wrapped in.
  unfoldable pub call : (Sys R → A × Sys R) → String → Exec R A
  call f label w = scheduled w.fates f label w.sys

module _ {R : Redis} where
  -- A change that cannot fail: a counter.
  unfoldable pub modify : (Sys R → Sys R) → Exec R (Unit {0})
  modify f w = (ok tt, record w { sys = f w.sys })

module _ {R : Redis} {A B : Type 0} where
  abbrev pub continue : Result A → (A → Exec R B) → World R → Result B × World R
  continue (ok a) f w = f a w
  continue (err e) f w = (err e, w)

  infixl 10 ◌>>=◌ ◌>>◌
  unfoldable pub ◌>>=◌ : Exec R A → (A → Exec R B) → Exec R B
  unfolding pure raise lift gets
  ◌>>=◌ m f w = let (r, w') = m w in continue r f w'

  abbrev pub ◌>>◌ : Exec R A → Exec R B → Exec R B
  m >> n = m >>= λ _. n
