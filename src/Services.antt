-- ===== src/Services.antt =====
-- The services that own no data: apps/messaging_gateway, worker, runtime_api and control_plane, and
-- the use cases of crates/application.
mod Rpc
mod Gateway
mod Worker
mod Ingestion
mod Login
mod Sessions
mod Forward
mod Tests
