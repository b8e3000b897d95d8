-- ===== src/ErrorCore.antt =====
-- server/crates/error_core: the stable taxonomy of errors, the aggregate `AppError`, and the
-- conversions at the borders of a service (error envelope, gRPC status, log record).
pub mod Code
pub mod App
pub mod Bridge
pub mod Status
pub mod Report
pub mod Laws
pub mod Border
mod Tests
