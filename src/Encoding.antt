-- ===== src/Encoding.antt =====
-- Go's packages `encoding/base64` and `encoding/json`, as far as the bot uses them.
pub mod Base64
pub mod Json
pub mod Value
