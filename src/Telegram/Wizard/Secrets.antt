-- ===== src/Telegram/Wizard/Secrets.antt =====
-- `finishWizard` of internal/telegram/handlers.go encrypts, and `decryptOptional` of
-- internal/worker/worker.go decrypts.
use hyprbot.Telegram.Service.{Service}
use hyprbot.Telegram.Wizard.{optional_secret}
use hyprbot.Worker.{Worker, decrypt_optional}
use hyprbot.Crypto.Aead.{IsLawful}
use hyprbot.Crypto.Manager.{encrypt, Envelope, marshal_encrypted_string}
use hyprbot.Crypto.Manager.RoundTrip.{IsReady, unmarshal-marshal}
use hyprbot.Encoding.Base64.{IsByte}
use hyprbot.Prelude.Map
use hyprbot.Strings.{is_blank}
use hyprbot.Prelude.{
  subst, >>=-eq-ok, refl, text_has_eq, inr, none, inl, Bool-cases, [], if◌then◌else◌, ok, Option,
  some, All, false, ◌≡◌, Text, ℕ, List,
}

-- A marshalled envelope is not blank.
visible_raw :
    (v : Service) (random : Option (List ℕ)) (value raw : Text)
    → ((e : Envelope) → is_blank (v.envelope_json.marshal e) ≡ false)
    → marshal_encrypted_string v.aead v.envelope_json v.crypto random value ≡ ok raw
    → is_blank raw ≡ false
unfolding marshal_encrypted_string
visible_raw v random value raw visible h =
    let (env, sealed, same) =
      >>=-eq-ok (encrypt v.aead v.crypto random value) (λ e. ok (v.envelope_json.marshal e)) h in
    let here : v.envelope_json.marshal env ≡ raw = cc in
    subst (λ t. is_blank t ≡ false) here (visible env)

-- What the wizard stores of a secret, a worker that holds the same key under the same identifier
-- decrypts to that secret, or to the empty text where the secret is blank, if no marshalled
-- envelope is blank.
pub decrypt_optional-optional_secret :
    (v : Service) (w : Worker) (L : IsLawful v.aead) (ready : IsReady v.crypto) (nonce : List ℕ)
    (value : Text)
    → w.aead ≡ v.aead
    → w.envelope_json ≡ v.envelope_json
    → ((e : Envelope) → is_blank (v.envelope_json.marshal e) ≡ false)
    → All IsByte nonce
    → Map.lookup v.crypto.current_key_id w.crypto.keys ≡ some ready.current_key
    → (o : Option Text) × (optional_secret v (some nonce) value ≡ ok o)
      × (decrypt_optional w o ≡ ok (if is_blank value then [] else value))
unfolding optional_secret decrypt_optional
decrypt_optional-optional_secret v w L ready nonce value same_aead same_json visible b kept =
    elim (Bool-cases (is_blank value)) [
      | inl e ↦ (none, rw e refl, rw e refl)
      | inr e ↦
          let (raw, sealed, opened) =
            unmarshal-marshal v.aead L v.envelope_json v.crypto w.crypto ready nonce value b kept in
          (
            some raw,
            rw (e, sealed) refl,
            rw (e, visible_raw v (some nonce) value raw visible sealed, same_aead, same_json)
                opened,
          )
    ]
