-- ===== src/Transport/Runtime.antt =====
-- transport/src/runtime.rs, in parts.
pub mod Endpoint
pub mod Backoff
pub mod Conexao
pub mod Server
pub mod Call
