-- ===== src/Examples/Config.antt =====
-- A master key, as the environment holds it and as loadCryptoConfig of internal/config/config.go reads it.
use hyprbot.Config.{CryptoConfig}
use hyprbot.Prelude.{◌∷◌, ℕ, [], List, text, Text}

abbrev eight_a : Text → Text
eight_a r = 65 ∷ 65 ∷ 65 ∷ 65 ∷ 65 ∷ 65 ∷ 65 ∷ 65 ∷ r

-- Thirty-two zero bytes.
abbrev pub zeros : Text
zeros = eight_a (eight_a (eight_a (eight_a (eight_a (65 ∷ 65 ∷ 65 ∷ 61 ∷ [])))))

abbrev eight_zeros : List ℕ → List ℕ
eight_zeros r = 0 ∷ 0 ∷ 0 ∷ 0 ∷ 0 ∷ 0 ∷ 0 ∷ 0 ∷ r

abbrev pub config : CryptoConfig
config = record {
  current_key_id = text "default";
  keys = (text "default", eight_zeros (eight_zeros (eight_zeros (eight_zeros [])))) ∷ [];
}
