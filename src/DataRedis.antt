-- ===== src/DataRedis.antt =====
-- server/apps/data_redis: the service over the cache and the tokens.
pub mod Json
pub mod Handlers
pub mod Replies
mod Tests
