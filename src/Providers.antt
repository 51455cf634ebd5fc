-- ===== src/Providers.antt =====
-- internal/providers: requests to language models, and the clients that send them.
pub mod Request
pub mod Registry
pub mod Attempts
pub mod Http
pub mod Openai
pub mod Custom
pub mod Answers
pub mod Stubs
