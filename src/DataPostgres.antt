-- ===== src/DataPostgres.antt =====
-- apps/data_postgres: the handlers.
pub mod Handlers
pub mod Credentials
pub mod Replies
pub mod Atomicity
pub mod Memory
mod Tests
