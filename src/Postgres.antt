-- ===== src/Postgres.antt =====
-- server/crates/infrastructure_postgres: persistence.
pub mod Errors
pub mod Coherence
pub mod Security
pub mod Crypto
pub mod Settings
pub mod Repositories
pub mod Transaction
pub mod Tenants
pub mod Config
pub mod ConfigCache
mod Tests
