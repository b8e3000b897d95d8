-- ===== src/Storage.antt =====
-- crates/infrastructure_storage.
pub mod Files
pub mod Client
pub mod Laws
pub mod Refinement
pub mod Memory
mod Tests
