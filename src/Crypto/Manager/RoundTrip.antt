-- ===== src/Crypto/Manager/RoundTrip.antt =====
-- The methods of internal/crypto/envelope.go, one after the other.
use hyprbot.Prelude.{
  ℕ, ◌≡◌, refl, ◌∙◌, ap, true, Option, none, some, List, [], ◌∷◌, Text, text_has_eq, length, ok,
  ◌>>=◌, arith, All, eqb_iff,
}
use hyprbot.Prelude.Map
use hyprbot.Prelude.Map.{Map}
use hyprbot.Encoding.Base64
use hyprbot.Encoding.Base64.{IsByte}
use hyprbot.Encoding.Json.{Codec}
use hyprbot.Crypto.Aead.{Aead, IsLawful}
use hyprbot.Crypto.Manager.{
  Envelope, Manager, new_manager, all_32, encrypt, decrypt, decrypt_with, marshal_encrypted_string,
  unmarshal_encrypted_string, re_encrypt,
}

-- What `NewManager` makes sure of: the current key is there, and every key has 32 bytes.
pub record IsReady (m : Manager) : Type 0 where
  pub current_key : List ℕ
  pub found : Map.lookup m.current_key_id m.keys ≡ some current_key
  pub size : length current_key ≡ 32

all_32-lookup :
    (keys : Map Text (List ℕ)) (id : Text) (key : List ℕ)
    → all_32 keys ≡ true
    → Map.lookup id keys ≡ some key
    → length key ≡ 32
unfolding all_32 Map.lookup
all_32-lookup [] id key h e = cc
all_32-lookup ((j, k) ∷ keys) id key h e =
    ground (arith, all_32-lookup keys id key, eqb_iff (length k) 32)

-- A manager that NewManager returns holds its current key, of 32 bytes.
pub new_manager-IsReady :
    (current : Text) (keys : Map Text (List ℕ)) (m : Manager)
    → new_manager current keys ≡ ok m
    → IsReady m
unfolding new_manager
new_manager-IsReady current keys m h = go (Map.lookup current keys) refl
  where
    go : (o : Option (List ℕ)) → Map.lookup current keys ≡ o → IsReady m
    go none e = absurd (ground arith)
    go (some key) e = record {
      current_key = key;
      found = ground arith;
      size = ground (arith, all_32-lookup keys current key);
    }

-- The envelope of a text under a key.
abbrev sealed : Aead → Text → List ℕ → List ℕ → Text → Envelope
sealed A id key nonce p = record {
  key_id = id;
  nonce = Base64.encode nonce;
  ciphertext = Base64.encode (A.seal key nonce p);
}

module _ (A : Aead) (L : IsLawful A) where
  decrypt_with-seal :
      (key nonce : List ℕ) (p id : Text)
      → All IsByte nonce
      → length key ≡ 32
      → decrypt_with A key (sealed A id key nonce p) ≡ ok p
  unfolding decrypt_with
  decrypt_with-seal key nonce p id b size =
      rw (Base64.decode-encode nonce b, decrypt_with)
        (rw (Base64.decode-encode _ (L.seal-IsByte key nonce p), decrypt_with)
          (rw (size, decrypt_with) (rw (L.open-seal key nonce p, decrypt_with))))

  encrypt_lem :
      (m : Manager) (nonce : List ℕ) (p : Text) (key : List ℕ)
      → Map.lookup m.current_key_id m.keys ≡ some key
      → length key ≡ 32
      → encrypt A m (some nonce) p ≡ ok (sealed A m.current_key_id key nonce p)
  unfolding encrypt
  encrypt_lem m nonce p key f size = rw (f, encrypt) (rw (size, encrypt))

  module _ (json : Codec Envelope) where
    -- The string that a ready manager encrypts a secret to is read back as that secret by every
    -- manager that holds the same key under the same identifier, whichever its current key is.
    pub unmarshal-marshal :
        (m m' : Manager) (ready : IsReady m) (nonce : List ℕ) (value : Text)
        → All IsByte nonce
        → Map.lookup m.current_key_id m'.keys ≡ some ready.current_key
        → (raw : Text) × (marshal_encrypted_string A json m (some nonce) value ≡ ok raw)
          × (unmarshal_encrypted_string A json m' raw ≡ ok value)
    unfolding marshal_encrypted_string unmarshal_encrypted_string decrypt
    unmarshal-marshal m m' ready nonce value b kept =
        let env = sealed A m.current_key_id ready.current_key nonce value in
        (
          json.marshal env,
          ap (λ r. r >>= λ e. ok (json.marshal e))
              (encrypt_lem m nonce value ready.current_key ready.found ready.size),
          rw (json.unmarshal-marshal env, unmarshal_encrypted_string)
              (rw (kept, decrypt)
                (decrypt_with-seal ready.current_key nonce value m.current_key_id b ready.size)),
        )

    -- A manager with a new current key that keeps the old one re-encrypts a stored secret, and
    -- the result is read back as the same secret by every manager that holds the new key.
    pub re_encrypt-keeps :
        (m m' m'' : Manager) (ready : IsReady m) (ready' : IsReady m') (nonce nonce' : List ℕ)
        (value raw : Text)
        → All IsByte nonce
        → All IsByte nonce'
        → Map.lookup m.current_key_id m'.keys ≡ some ready.current_key
        → Map.lookup m'.current_key_id m''.keys ≡ some ready'.current_key
        → marshal_encrypted_string A json m (some nonce) value ≡ ok raw
        → (raw' : Text) × (re_encrypt A json m' (some nonce') raw ≡ ok raw')
          × (unmarshal_encrypted_string A json m'' raw' ≡ ok value)
    unfolding re_encrypt
    re_encrypt-keeps m m' m'' ready ready' nonce nonce' value raw b b' kept kept' e =
        let (raw₁, e₁, d₁) = unmarshal-marshal m m' ready nonce value b kept in
        let same : raw ≡ raw₁ = cc in
        let (raw₂, e₂, d₂) = unmarshal-marshal m' m'' ready' nonce' value b' kept' in
        (
          raw₂,
          rw same (
              ap (λ r. r >>= λ plain. marshal_encrypted_string A json m' (some nonce') plain) d₁
              ∙ e₂),
          d₂,
        )
