-- ===== src/Transport/Runtime/Server.antt =====
-- `Server` and `handle_connection` of transport/src/runtime.rs: what a server does with the frames
-- of one connection.
pub mod Defs
pub mod Quiescence
pub mod Rpc
