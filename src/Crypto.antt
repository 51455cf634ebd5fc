-- ===== src/Crypto.antt =====
-- internal/crypto/envelope.go: envelope encryption of secrets under named master keys.
pub mod Aead
pub mod Manager
