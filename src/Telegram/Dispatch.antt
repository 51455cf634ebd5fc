-- ===== src/Telegram/Dispatch.antt =====
-- `Register` of internal/telegram/service.go: which handler an update runs.
pub mod Tenants
pub mod Others
use hyprbot.Telegram.Admin.{ai_preset_add, ai_preset_del, ai_default, llm_del}
use hyprbot.Telegram.Ask.{ask, ai}
use hyprbot.Telegram.Callbacks.{on_callback}
use hyprbot.Telegram.Context.{Context, CallbackQuery, Incoming, is_private}
use hyprbot.Telegram.Lists.{ai_list, llm_add, llm_list}
use hyprbot.Telegram.Menu.{menu, help, setup, status, start}
use hyprbot.Telegram.Menu.Texts.{cb_prefix}
use hyprbot.Telegram.Service.{Service}
use hyprbot.Telegram.Wizard.Dialogue.{cancel_wizard, private_text}
use hyprbot.Strings.{has_prefix}
use hyprbot.System.{Exec, pure}
use hyprbot.Redis.{Redis}
use hyprbot.Prelude.Map
use hyprbot.Prelude.Map.{Map}
use hyprbot.Prelude.{
  inr, subst, inl, ◌==◌, Bool-cases, refl, true, arith, All, ◌≡◌, [], text_has_eq, ◌∷◌, none, text,
  some, ℕ, List, if◌then◌else◌, false, ◌&&◌, Text, Option, Bool,
}

-- What gotgbot reads of an update: the name of the command that it begins with, in lower case, and
-- whether it is a new message with a text.
pub record Library : Type 0 where
  pub command_of : Context → Option Text
  pub is_new_text : Context → Bool

-- The filter of `NewCallback`.
abbrev pub is_button : Option CallbackQuery → Bool
is_button none = false
is_button (some q) = has_prefix q.payload cb_prefix

abbrev pub is_private_message : Option Incoming → Bool
is_private_message none = false
is_private_message (some m) = is_private m.chat

-- The filter of `NewMessage`.
unfoldable pub is_private_text : Library → Context → Bool
is_private_text l ctx = is_private_message ctx.effective_message && l.is_new_text ctx

-- The rest of the handlers, where no command is there.
abbrev pub otherwise :
    {R : Redis} → Bool → Exec R (Unit {0}) → Bool → Exec R (Unit {0}) → Exec R (Unit {0})
otherwise button m private n = if button then m else if private then n else pure tt

-- `new_id` is what a job's identifier is drawn as, `r₁` and `r₂` what the wizard's encryptions draw.
module _ (v : Service) {R : Redis} (new_id : Text) (r₁ r₂ : Option (List ℕ)) (ctx : Context) where
  -- The commands, in the order of their registration.
  unfoldable pub commands : Map Text (Exec R (Unit {0}))
  commands =
      (text "help", help v ctx)
      ∷ (text "start", start v ctx)
      ∷ (text "menu", menu v ctx)
      ∷ (text "setup", setup v ctx)
      ∷ (text "status", status v ctx)
      ∷ (text "cancel", cancel_wizard ctx)
      ∷ (text "ask", ask v new_id ctx)
      ∷ (text "ai", ai v new_id ctx)
      ∷ (text "ai_list", ai_list ctx)
      ∷ (text "ai_preset_add", ai_preset_add v ctx)
      ∷ (text "ai_preset_del", ai_preset_del v ctx)
      ∷ (text "ai_default", ai_default v ctx)
      ∷ (text "llm_add", llm_add ctx v)
      ∷ (text "llm_list", llm_list ctx v)
      ∷ (text "llm_del", llm_del v ctx)
      ∷ []

  module _ (l : Library) where
    -- The callback and the message handler, which stand behind the commands.
    unfoldable pub without_command : Exec R (Unit {0})
    without_command =
        otherwise (is_button ctx.callback_query) (on_callback v ctx) (is_private_text l ctx)
          (private_text v r₁ r₂ ctx)

    abbrev pub with_command : Option (Exec R (Unit {0})) → Exec R (Unit {0})
    with_command none = without_command
    with_command (some m) = m

    abbrev pub command : Option Text → Option (Exec R (Unit {0}))
    command none = none
    command (some name) = Map.lookup name commands

    -- What the dispatcher runs: the first handler that takes the update.
    unfoldable pub dispatch : Exec R (Unit {0})
    dispatch = with_command (command (l.command_of ctx))

module _ {R : Redis} (T : Exec R (Unit {0}) → Type 0) where
  All-lookup :
      (m : Map Text (Exec R (Unit {0}))) (name : Text) (h : Exec R (Unit {0}))
      → All (λ p. T p.1) m
      → Map.lookup name m ≡ some h
      → T h
  unfolding Map.lookup
  All-lookup [] name h all e = absurd (ground arith)
  All-lookup ((k, m) ∷ ms) name h all e = elim (Bool-cases (name == k)) [
    | inl q ↦ let same : m ≡ h = ground arith in subst T same all.0
    | inr q ↦ All-lookup ms name h all.1 (ground arith)
  ]

  otherwise_cases :
      (b c : Bool) (m n : Exec R (Unit {0}))
      → T m
      → (c ≡ true → T n)
      → T (pure tt)
      → T (otherwise b m c n)
  otherwise_cases true c m n x y z = x
  otherwise_cases false true m n x y z = y refl
  otherwise_cases false false m n x y z = z

  -- What holds of every handler holds of what the dispatcher runs.
  pub dispatch_cases :
      (v : Service) (new_id : Text) (r₁ r₂ : Option (List ℕ)) (ctx : Context) (l : Library)
      → All (λ p. T p.1) (commands v new_id r₁ r₂ ctx)
      → T (on_callback v ctx)
      → (is_private_text l ctx ≡ true → T (private_text v r₁ r₂ ctx))
      → T (pure tt)
      → T (dispatch v new_id r₁ r₂ ctx l)
  unfolding dispatch without_command
  dispatch_cases v new_id r₁ r₂ ctx l all callback message none_left =
      by_command (command v new_id r₁ r₂ ctx l (l.command_of ctx)) refl
    where
      behind : T (without_command v new_id r₁ r₂ ctx l)
      behind = otherwise_cases _ _ _ _ callback message none_left

      by_command :
          (o : Option (Exec R (Unit {0})))
          → command v new_id r₁ r₂ ctx l (l.command_of ctx) ≡ o
          → T (with_command v new_id r₁ r₂ ctx l o)
      by_command none e = behind
      by_command (some h) e = by_name (l.command_of ctx) e
        where
          by_name : (n : Option Text) → command v new_id r₁ r₂ ctx l n ≡ some h → T h
          by_name none q = absurd (ground arith)
          by_name (some n) q = All-lookup _ n h all q
