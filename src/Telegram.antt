-- ===== src/Telegram.antt =====
-- internal/telegram: the update processor, the handlers and the provider wizard.
pub mod Commands
pub mod Apart
pub mod Context
pub mod Processor
pub mod Service
pub mod Ask
pub mod Lists
pub mod Admin
pub mod Wizard
pub mod Menu
pub mod Callbacks
pub mod Dispatch
