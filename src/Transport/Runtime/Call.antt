-- ===== src/Transport/Runtime/Call.antt =====
-- `MuxClient::call` and `garantir_conexao` of transport/src/runtime.rs. What the connections, the
-- network and the server do in each of the two rounds is an argument.
pub mod Defs
pub mod Sends
