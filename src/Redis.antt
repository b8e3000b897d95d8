-- ===== src/Redis.antt =====
-- server/crates/infrastructure_redis: cache and tokens in Redis.
pub mod Server
pub mod Keys
pub mod Errors
pub mod Exec
pub mod Tokens
pub mod Records
pub mod Rotation
pub mod Race
pub mod Coherence
pub mod Issue
pub mod Cache
pub mod Memory
mod Tests
