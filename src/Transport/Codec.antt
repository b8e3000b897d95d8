-- ===== src/Transport/Codec.antt =====
-- transport/src/codec.rs: an envelope as bytes.
pub mod Interface
pub mod Flatbuffers
