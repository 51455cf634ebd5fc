-- ===== src/Examples.antt =====
-- Concrete servers, codecs and states, and the theorems applied to them.
pub mod Libraries
pub mod States
pub mod Storage
pub mod Crypto
pub mod Queue
pub mod Worker
pub mod Telegram
pub mod Commands
pub mod Wizard
pub mod Menus
pub mod Bot
pub mod Clients
pub mod Config
pub mod Entry
