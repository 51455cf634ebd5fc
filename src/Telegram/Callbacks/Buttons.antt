-- ===== src/Telegram/Callbacks/Buttons.antt =====
-- The keyboards of internal/telegram/ui.go and the switch of callbacks.go.
use hyprbot.Telegram.Callbacks.{action_of, Action}
use hyprbot.Telegram.Menu.Texts.{
  main_menu_keyboard, back_to_menu_keyboard, setup_keyboard, cb_prefix,
}
use hyprbot.Strings.{trim_space, has_prefix}
use hyprbot.System.{Keyboard, Button}
use hyprbot.Prelude.{
  none, refl, some, subst, inr, arith, text_eq, false, [], true, inl, ◌&&◌, ◌⊎◌, ◌≡◌, text, ◌∷◌,
  Bool, Option, List,
}

abbrev InRow : Button → List Button → Type 0
InRow b [] = ⊥
InRow b (c ∷ row) = (c ≡ b) ⊎ InRow b row

-- The button stands on the keyboard.
abbrev pub IsOn : Button → Keyboard → Type 0
IsOn b [] = ⊥
IsOn b (row ∷ rows) = InRow b row ⊎ IsOn b rows

-- What the buttons of the menu send is taken by the handler of callbacks, and is one of its cases.
abbrev pub IsKnown : Button → Type 0
IsKnown b =
    (has_prefix b.callback_data cb_prefix ≡ true)
    × ((a : Action) × (action_of (trim_space b.callback_data) ≡ some a))

abbrev is_some : Option Action → Bool
is_some none = false
is_some (some a) = true

is_known : Button → Bool
is_known b =
    has_prefix b.callback_data cb_prefix && is_some (action_of (trim_space b.callback_data))

known_row : List Button → Bool
known_row [] = true
known_row (b ∷ row) = is_known b && known_row row

known_keyboard : Keyboard → Bool
known_keyboard [] = true
known_keyboard (row ∷ rows) = known_row row && known_keyboard rows

is_known-IsKnown : (b : Button) → is_known b ≡ true → IsKnown b
unfolding is_known
is_known-IsKnown b h = (ground arith, by_action (action_of (trim_space b.callback_data)) refl)
  where
    by_action :
        (o : Option Action)
        → action_of (trim_space b.callback_data) ≡ o
        → (a : Action) × (action_of (trim_space b.callback_data) ≡ some a)
    by_action none e = absurd (ground arith)
    by_action (some a) e = (a, e)

known_row-IsKnown :
    (b : Button) (row : List Button) → known_row row ≡ true → InRow b row → IsKnown b
unfolding known_row
known_row-IsKnown b [] h i = absurd i
known_row-IsKnown b (c ∷ row) h (inl e) = subst IsKnown e (is_known-IsKnown c (ground arith))
known_row-IsKnown b (c ∷ row) h (inr i) = known_row-IsKnown b row (ground arith) i

known_keyboard-IsKnown :
    (b : Button) (k : Keyboard) → known_keyboard k ≡ true → IsOn b k → IsKnown b
unfolding known_keyboard
known_keyboard-IsKnown b [] h i = absurd i
known_keyboard-IsKnown b (row ∷ rows) h (inl i) = known_row-IsKnown b row (ground arith) i
known_keyboard-IsKnown b (row ∷ rows) h (inr i) = known_keyboard-IsKnown b rows (ground arith) i

known_menus :
    (known_keyboard main_menu_keyboard ≡ true)
    × (known_keyboard back_to_menu_keyboard ≡ true)
    × (known_keyboard setup_keyboard ≡ true)
unfolding known_keyboard known_row is_known action_of trim_space has_prefix text text_eq
    hyprbot.Strings.strip_prefix
known_menus = (refl, refl, refl)

-- No button of the three menus is answered with "Unknown action": what it sends has the prefix
-- that the callback handler takes, and is one of the cases of its switch.
pub menu_buttons-IsKnown :
    (b : Button)
    → IsOn b main_menu_keyboard ⊎ IsOn b back_to_menu_keyboard ⊎ IsOn b setup_keyboard
    → IsKnown b
menu_buttons-IsKnown b (inl i) = known_keyboard-IsKnown b main_menu_keyboard known_menus.0 i
menu_buttons-IsKnown b (inr (inl i)) =
    known_keyboard-IsKnown b back_to_menu_keyboard known_menus.1 i
menu_buttons-IsKnown b (inr (inr i)) = known_keyboard-IsKnown b setup_keyboard known_menus.2 i
