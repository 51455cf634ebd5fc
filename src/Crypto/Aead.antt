-- ===== src/Crypto/Aead.antt =====
-- AES-256-GCM of `crypto/aes` and `crypto/cipher`, which the bot calls and does not implement.
use hyprbot.Prelude.{ℕ, ◌≡◌, Bool, ◌||◌, Option, some, List, Text, All, eqb}
use hyprbot.Encoding.Base64.{IsByte}

-- `aead.Seal(nil, nonce, plaintext, nil)` and `aead.Open(nil, nonce, ciphertext, nil)` under a key,
-- with `none` where `Open` fails. A plaintext is a text: converting a Go string to bytes and back
-- changes nothing.
pub record Aead : Type 0 where
  pub seal : List ℕ → List ℕ → Text → List ℕ
  pub «open» : List ℕ → List ℕ → List ℕ → Option Text

-- `aes.NewCipher` accepts keys of these lengths.
abbrev pub is_key_size : ℕ → Bool
is_key_size n = eqb n 16 || eqb n 24 || eqb n 32

-- What the packages document: `Open` undoes `Seal`, and a ciphertext is made of bytes.
pub record IsLawful (A : Aead) : Type 0 where
  pub open-seal : (key nonce : List ℕ) (p : Text) → A.«open» key nonce (A.seal key nonce p) ≡ some p
  pub seal-IsByte : (key nonce : List ℕ) (p : Text) → All IsByte (A.seal key nonce p)
