-- ===== src/Transport/Runtime/Conexao.antt =====
-- `Conexao` of transport/src/runtime.rs: many calls on one connection.
pub mod Defs
pub mod Pending
