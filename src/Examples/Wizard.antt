-- ===== src/Examples/Wizard.antt =====
-- The theorems on the wizard of internal/telegram, applied.
use hyprbot.Telegram.Service.{Service, WizardState}
use hyprbot.Telegram.Commands.{normalize_provider_kind, is_provider_name}
use hyprbot.Telegram.Wizard.{
  move, advance, finish, stage_of, kind_move, name_move, base_url_move, headers_move, is_openai,
  optional_secret,
}
use hyprbot.Telegram.Wizard.Dialogue.{first_state, finish_wizard}
use hyprbot.Telegram.Wizard.Steps.{begun, answered}
use hyprbot.Telegram.Wizard.Finished.{finish_wizard-Stored}
use hyprbot.Telegram.Wizard.Stored.{Ended, Stored}
use hyprbot.Telegram.Wizard.Saves.{finish_wizard_saves, written}
use hyprbot.Storage.Store.{insert_provider_row}
use hyprbot.Redis.Memory.{memory, empty_server}
use hyprbot.System.{World}
use hyprbot.Examples.States.{running}
use hyprbot.Telegram.Wizard.Secrets.{decrypt_optional-optional_secret}
use hyprbot.Strings.{is_blank, trim_space, to_lower}
use hyprbot.Worker.{Worker, decrypt_optional}
use hyprbot.Examples.Libraries.{plain_aead-IsLawful}
use hyprbot.Examples.Crypto.{before, before_ready, nonce, nonce-IsByte}
use hyprbot.Examples.Telegram.{service}
use hyprbot.Examples.Worker.{worker}
use hyprbot.Prelude.{
  none, inr, inl, is_empty, Bool-cases, false, if◌then◌else◌, ok, refl, Text, text_eq, pos, ◌∷◌,
  text, ◌≡◌, some, Option, [],
}

abbrev keeper : Service
keeper = record service { crypto = before }

abbrev named : WizardState
named = record (first_state (pos 5)) { kind = text "custom_http"; step = text "name" }

abbrev addressed : WizardState
addressed = record named { name = 103 ∷ []; step = text "base_url" }

abbrev headed : WizardState
headed = record addressed { base_url = text "https://a.example"; step = text "headers" }

abbrev last : WizardState
last = record headed { headers_json = []; step = text "api_key" }

named_next :
    move keeper (first_state (pos 5)) (text "custom")
    ≡ advance named (text "Send provider name (letters, digits, _ or -, max 64).")
unfolding move stage_of kind_move normalize_provider_kind trim_space to_lower text text_eq
named_next = refl

addressed_next : move keeper named (103 ∷ []) ≡ advance addressed (text "Send custom endpoint URL")
unfolding move stage_of name_move is_provider_name is_openai text text_eq
addressed_next = refl

headed_next :
    move keeper addressed (text "https://a.example")
    ≡ advance headed (
        text
          "Send headers JSON template (example: {\"Authorization\":\"Bearer {{api_key}}\"}) or '-'")
unfolding move stage_of base_url_move is_openai text text_eq
headed_next = refl

last_next : move keeper headed (text "-") ≡ advance last (text "Send API key (or '-' for empty).")
unfolding move stage_of headers_move text text_eq
last_next = refl

last_finishes : move keeper last (text "key") ≡ finish (text "key")
unfolding move stage_of text text_eq
last_finishes = refl

abbrev world : World memory
world = record { sys = running empty_server 0; fates = [] }

finish_wizard-Stored_example :
    Ended keeper
      (some nonce)
      (text "key")
      (pos 5)
      last
      world.sys.db
      (finish_wizard keeper (some nonce) (some nonce) (pos 7) last (text "key") world).0
      (finish_wizard keeper (some nonce) (some nonce) (pos 7) last (text "key") world).1.sys.db
finish_wizard-Stored_example =
    finish_wizard-Stored keeper (some nonce) (some nonce) (pos 5) (pos 7) last (text "key")
      (text "key") world
      (answered _ _
        (answered _ _ (answered _ _ (answered _ _ begun named_next) addressed_next) headed_next)
        last_next)
      last_finishes

abbrev reader : Worker
reader = record worker { crypto = before }

brace_visible : (r : Text) → is_blank (123 ∷ r) ≡ false
unfolding is_blank trim_space hyprbot.Strings.trim_left hyprbot.Strings.trim_right
    hyprbot.Strings.is_space
brace_visible r = elim (Bool-cases (is_empty (hyprbot.Strings.trim_right r))) [
  | inl e ↦ rw e refl
  | inr e ↦ rw e refl
]

key_secret :
    (o : Option Text) × (optional_secret keeper (some nonce) (text "key") ≡ ok o)
    × (decrypt_optional reader o ≡ ok (if is_blank (text "key") then [] else text "key"))
key_secret =
    decrypt_optional-optional_secret keeper reader plain_aead-IsLawful before_ready nonce
      (text "key") refl refl (λ e. brace_visible _) nonce-IsByte before_ready.found

no_headers : optional_secret keeper (some nonce) [] ≡ ok none
unfolding optional_secret is_blank trim_space
no_headers = refl

accepted :
    (o : Option Text) → (insert_provider_row 0 (written keeper last o none) world.sys.db).0 ≡ ok tt
unfolding insert_provider_row hyprbot.Storage.Columns.provider_columns
    hyprbot.Storage.Columns.json_or_null hyprbot.Storage.Columns.json_column
    hyprbot.Storage.Store.chat_key_holds hyprbot.Storage.Statements.find_chat
accepted none = refl
accepted (some k) = refl

finish_wizard_saves_example :
    let (r, w) = finish_wizard keeper (some nonce) (some nonce) (pos 7) last (text "key") world in
    (r ≡ ok tt) × Stored keeper (some nonce) (text "key") (pos 5) last world.sys.db w.sys.db
finish_wizard_saves_example =
    finish_wizard_saves keeper (some nonce) (some nonce) (pos 5) (pos 7) last (text "key")
      (text "key") world.sys key_secret.0 none
      (answered _ _
        (answered _ _ (answered _ _ (answered _ _ begun named_next) addressed_next) headed_next)
        last_next)
      last_finishes key_secret.1 no_headers (accepted key_secret.0)

decrypt_optional-optional_secret_example :
    (o : Option Text) × (optional_secret keeper (some nonce) (text "key") ≡ ok o)
    × (decrypt_optional reader o ≡ ok (if is_blank (text "key") then [] else text "key"))
decrypt_optional-optional_secret_example =
    decrypt_optional-optional_secret keeper reader plain_aead-IsLawful before_ready nonce
      (text "key") refl refl (λ e. brace_visible _) nonce-IsByte before_ready.found
