-- ===== src/Transport.antt =====
-- server/crates/transport: frames, codecs, the multiplexed client, the server and the event bus.
pub mod Error
pub mod Framing
pub mod Codec
pub mod Runtime
pub mod Bus
mod Tests
