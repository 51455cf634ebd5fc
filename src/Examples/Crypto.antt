-- ===== src/Examples/Crypto.antt =====
-- The theorems on internal/crypto, applied.
use hyprbot.Crypto.Manager.{
  Manager, new_manager, marshal_encrypted_string, unmarshal_encrypted_string, re_encrypt,
}
use hyprbot.Crypto.Manager.RoundTrip.{IsReady, unmarshal-marshal, re_encrypt-keeps}
use hyprbot.Examples.Libraries.{plain_aead, plain_aead-IsLawful, envelope_codec}
use hyprbot.Prelude.Map
use hyprbot.Prelude.{
  text_has_eq, ok, refl, ◌≡◌, arith, some, ◌∷◌, [], text_eq, text, ℕ, Text, List, All,
}
use hyprbot.Encoding.Base64.{IsByte}

abbrev pub eight : ℕ → List ℕ → List ℕ
eight x r = x ∷ x ∷ x ∷ x ∷ x ∷ x ∷ x ∷ x ∷ r

abbrev pub key_of : ℕ → List ℕ
key_of x = eight x (eight x (eight x (eight x [])))

abbrev pub before : Manager
before = record { current_key_id = text "a"; keys = (text "a", key_of 1) ∷ [] }

abbrev between : Manager
between = record {
  current_key_id = text "b";
  keys = (text "a", key_of 1) ∷ (text "b", key_of 2) ∷ [];
}

abbrev later : Manager
later = record { current_key_id = text "b"; keys = (text "b", key_of 2) ∷ [] }

pub before_found : Map.lookup before.current_key_id before.keys ≡ some (key_of 1)
unfolding Map.lookup text text_eq
before_found = refl

abbrev pub before_ready : IsReady before
before_ready = record { current_key = key_of 1; found = before_found; size = omega arith }

between_found : Map.lookup between.current_key_id between.keys ≡ some (key_of 2)
unfolding Map.lookup text text_eq
between_found = refl

abbrev between_ready : IsReady between
between_ready = record { current_key = key_of 2; found = between_found; size = omega arith }

new_manager-between : new_manager between.current_key_id between.keys ≡ ok between
unfolding new_manager Map.lookup text text_eq
new_manager-between = refl

abbrev pub nonce : List ℕ
nonce = 1 ∷ 2 ∷ 3 ∷ 4 ∷ 5 ∷ 6 ∷ 7 ∷ 8 ∷ 9 ∷ 10 ∷ 11 ∷ 12 ∷ []

pub nonce-IsByte : All IsByte nonce
nonce-IsByte = grind arith

kept_before : Map.lookup before.current_key_id between.keys ≡ some (key_of 1)
unfolding Map.lookup text text_eq
kept_before = refl

kept_between : Map.lookup between.current_key_id later.keys ≡ some (key_of 2)
unfolding Map.lookup text text_eq
kept_between = refl

unmarshal-marshal_example :
    (raw : Text) × (marshal_encrypted_string plain_aead envelope_codec before
        (some nonce)
        (text "secret")
      ≡ ok raw)
    × (unmarshal_encrypted_string plain_aead envelope_codec between raw ≡ ok (text "secret"))
unmarshal-marshal_example =
    unmarshal-marshal plain_aead plain_aead-IsLawful envelope_codec before between before_ready
      nonce (text "secret") nonce-IsByte kept_before

secret_kept :
    (raw : Text) × (marshal_encrypted_string plain_aead envelope_codec before
        (some nonce)
        (text "secret")
      ≡ ok raw)
    × (unmarshal_encrypted_string plain_aead envelope_codec between raw ≡ ok (text "secret"))
secret_kept =
    unmarshal-marshal plain_aead plain_aead-IsLawful envelope_codec before between before_ready
      nonce (text "secret") nonce-IsByte kept_before

abbrev written : Text
written = secret_kept.0

re_encrypt-keeps_example :
    (raw' : Text) × (re_encrypt plain_aead envelope_codec between (some nonce) written ≡ ok raw')
    × (unmarshal_encrypted_string plain_aead envelope_codec later raw' ≡ ok (text "secret"))
re_encrypt-keeps_example =
    re_encrypt-keeps plain_aead plain_aead-IsLawful envelope_codec before between later before_ready
      between_ready nonce nonce (text "secret") written nonce-IsByte nonce-IsByte kept_before
      kept_between secret_kept.1
