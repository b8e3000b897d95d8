-- ===== src/Outbox.antt =====
-- apps/data_postgres/src/outbox_relay.rs: from the table `outbox` to the event stream.
pub mod Defs
pub mod Delivery
mod Tests
