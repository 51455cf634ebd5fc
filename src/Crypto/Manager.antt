-- ===== src/Crypto/Manager.antt =====
-- `Envelope`, `Manager` and its methods: internal/crypto/envelope.go.
pub mod RoundTrip
use hyprbot.Prelude.{
  ℕ, ◌≡◌, Bool, true, false, ◌&&◌, Option, none, some, List, [], ◌∷◌, Text, text_has_eq, is_empty,
  length, eqb, if◌then◌else◌, Error, failed, Result, ok, err, ◌>>=◌,
}
use hyprbot.Prelude.Map
use hyprbot.Prelude.Map.{Map}
use hyprbot.Encoding.Base64
use hyprbot.Encoding.Json.{Codec}
use hyprbot.Crypto.Aead.{Aead, is_key_size}

pub record Envelope : Type 0 where
  pub key_id : Text
  pub nonce : Text
  pub ciphertext : Text

pub record Manager : Type 0 where
  pub current_key_id : Text
  pub keys : Map Text (List ℕ)

-- The loop of `NewManager` over the keys' lengths.
unfoldable pub all_32 : Map Text (List ℕ) → Bool
all_32 [] = true
all_32 ((_, key) ∷ keys) = eqb (length key) 32 && all_32 keys

-- `NewManager`
unfoldable pub new_manager : Text → Map Text (List ℕ) → Result Manager
unfolding all_32
new_manager current keys =
    if is_empty current
    then err (failed "current key id is empty")
    else if is_empty keys
    then err (failed "keys map is empty")
    else elim (Map.lookup current keys) [
      | none ↦ err (failed "current key id not found")
      | some _ ↦
          if all_32 keys
          then ok (record { current_key_id = current; keys = keys })
          else err (failed "key must be 32 bytes")
    ]

-- A missing entry of a Go map of slices reads as the nil slice.
key_or_nil : Option (List ℕ) → List ℕ
key_or_nil none = []
key_or_nil (some key) = key

module _ (A : Aead) where
  -- `Encrypt`. `random` is what `rand.Read` fills the nonce with, `none` where it fails.
  unfoldable pub encrypt : Manager → Option (List ℕ) → Text → Result Envelope
  unfolding key_or_nil
  encrypt m random plaintext =
      let key = key_or_nil (Map.lookup m.current_key_id m.keys) in
      if is_key_size (length key)
      then elim random [
        | none ↦ err (failed "nonce")
        | some nonce ↦ ok (record {
          key_id = m.current_key_id;
          nonce = Base64.encode nonce;
          ciphertext = Base64.encode (A.seal key nonce plaintext);
        })
      ]
      else err (failed "new cipher")

  -- `Decrypt` once the key is known.
  decrypt_with : List ℕ → Envelope → Result Text
  decrypt_with key env = elim (Base64.decode env.nonce) [
    | none ↦ err (failed "decode nonce")
    | some nonce ↦ elim (Base64.decode env.ciphertext) [
      | none ↦ err (failed "decode ciphertext")
      | some ciphertext ↦
          if is_key_size (length key)
          then elim (A.«open» key nonce ciphertext) [
            | none ↦ err (failed "decrypt")
            | some plaintext ↦ ok plaintext
          ]
          else err (failed "new cipher")
    ]
  ]

  -- `Decrypt`
  unfoldable pub decrypt : Manager → Envelope → Result Text
  unfolding decrypt_with
  decrypt m env = elim (Map.lookup env.key_id m.keys) [
    | none ↦ err (failed "unknown key id")
    | some key ↦ decrypt_with key env
  ]

  module _ (json : Codec Envelope) where
    -- `MarshalEncryptedString`
    unfoldable pub marshal_encrypted_string : Manager → Option (List ℕ) → Text → Result Text
    marshal_encrypted_string m random value =
        encrypt m random value >>= λ env. ok (json.marshal env)

    -- `UnmarshalEncryptedString`
    unfoldable pub unmarshal_encrypted_string : Manager → Text → Result Text
    unmarshal_encrypted_string m raw = elim (json.unmarshal raw) [
      | none ↦ err (failed "unmarshal envelope")
      | some env ↦ decrypt m env
    ]

    -- `ReEncrypt`
    unfoldable pub re_encrypt : Manager → Option (List ℕ) → Text → Result Text
    re_encrypt m random raw =
        unmarshal_encrypted_string m raw >>= λ plain. marshal_encrypted_string m random plain
