-- ===== src/Transport/Bus.antt =====
-- transport/src/bus.rs: events on Redis streams.
pub mod Events
pub mod Consumer
pub mod Recovery
mod Tests
