-- ===== src/Queue.antt =====
-- internal/queue: the rate limiter, the deduplication of updates, and the job stream.
pub mod RateLimiter
pub mod Dedupe
pub mod Stream
pub mod Backlog
pub mod Delivery
