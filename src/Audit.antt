-- ===== src/Audit.antt =====
-- The trail of audit events: from a service over the stream to the table.
pub mod Logger
pub mod Consumer
pub mod Rows
mod Tests
