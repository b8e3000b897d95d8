-- ===== src/Lib.antt =====
-- Verification of the server of smart-core-assistant (server/): services that exchange envelopes
-- over a multiplexed transport, keep tokens in Redis, and pass domain events from a table of the
-- database to a Redis stream. Paths are from the root of the repository.
--
-- Contracts: what the services exchange (server/crates/contracts). The types that the build
--   generates are records here; `TenantEnvelope` is translated from src/envelope.rs.
-- ErrorCore: server/crates/error_core. `Code` is code.rs, `App` error.rs, `Bridge`
--   envelope_bridge.rs, `Status` transport.rs, `Report` report.rs, each with the source's function
--   names; `Laws` and `Border` hold the theorems.
-- Redis: server/crates/infrastructure_redis. `Server` is the interface of a Redis server, with the
--   documented effect of each command that succeeds as a law, and nothing on one that fails. `Keys`,
--   `Errors`, `Tokens` and `Cache` are keys.rs, errors.rs, auth_tokens.rs and cache.rs; `Exec` is the
--   effect of their methods: a result, and the data after it. `Records`, `Rotation`, `Issue`, `Race`
--   and `Coherence` are theorems; `Memory` is a server that satisfies the laws.
-- DataRedis: server/apps/data_redis/src/main.rs. `Json` is the parameter for serde_json and uuid,
--   `Handlers` the seven handlers, `Replies` what their caller gets.
-- Transport: server/crates/transport. `Framing` is framing.rs over a parameter for tokio's byte
--   input and output (`BigEndian` gives one), `Codec` is codec.rs over a parameter for the
--   flatbuffers library, `Runtime` is runtime.rs: `Endpoint` (configuration), `Backoff`
--   (reconnection), `Conexao` (calls that wait on a connection, as steps of its loops) and `Server`
--   (`handle_connection`, with its tasks and its write task as steps in any order over a channel of
--   100 frames that closes when a frame cannot be written; handlers may panic; and one call end to
--   end) and `Call` (`MuxClient::call`, a function of what happens in its two rounds). `Bus` is
--   bus.rs: `Events` (an event as fields of a stream's entry and back) and `Consumer`, over a
--   parameter for the commands of a consumer group; its endless loop runs for a number of rounds, and
--   the process stops after a number of calls, of a command or of the handler. `Recovery` is its
--   start after a stop.
-- Outbox: server/apps/data_postgres/src/outbox_relay.rs over a parameter for the database and the
--   stream.
-- Postgres: server/crates/infrastructure_postgres. `Errors`, `Security`, `Crypto`, `Settings`,
--   `Config` and `ConfigCache` are errors.rs, security.rs, crypto.rs, tenants/settings.rs,
--   tenants/config.rs and config_cache.rs; their children hold the theorems, and `Config.Database`
--   the calls of the database. `Repositories` is connection.rs with the operations of the
--   repositories that the service calls, `Transaction` the theorem on it, and `Tenants` is
--   tenants/tenants.rs. AES-GCM, base64, the
--   reading of numbers and the SQL statements are parameters.
-- DataPostgres: server/apps/data_postgres/src/main.rs. `Handlers` are the handlers that work in one
--   transaction, `Credentials` is VerifyCredentials with infrastructure_postgres/src/auth/password.rs,
--   `Atomicity` and `Replies` hold theorems.
-- Storage and DataStorage: server/crates/infrastructure_storage/src/lib.rs over a file system that
--   is a parameter, and server/apps/data_storage/src/main.rs over it (`Purge`: from the bus to the
--   file).
-- Audit: the trail of audit events. `Logger` is server/crates/observability/src/audit.rs, `Consumer`
--   processar_evento_auditoria of data_postgres with infrastructure_postgres/src/auditoria/
--   audit_log.rs over a parameter for the INSERT, and `Rows` joins the two over the stream.
-- Services: the services that own no data. `Gateway`, `Worker` and `Forward` are the handlers of
--   server/apps/messaging_gateway, worker, control_plane and runtime_api, `Login` is
--   server/crates/application/src/auth/login.rs with its handler; `Rpc` is the parameter for their
--   calls. `Ingestion` and `Sessions` put them together with data_postgres.
-- Json and Service: the parameter for serde_json and the envelopes of a reply and of an error, which
--   the handlers of several services share.
-- Prelude: names, list lemmas and texts that all share. A text is a list of characters.
--
-- Errors of `?` are results. A failed command leaves the data as the server gives them. Integers
-- are native numbers, with the casts of the source written out (`as u32`, `as i64`). The read loop
-- over a stream runs on fuel, one for each frame sent, and the theorem on it says that this is
-- enough. The six attempts of a reconnection are the source's own bound.
--
-- A call that panics is an outcome of its own. A transaction runs alone on the tables, and one that
-- is dropped leaves them as they were; a COMMIT that reports an error may have taken effect. Tasks
-- that a handler spawns run at once.
--
-- Not modelled: the audit logger of the tests, which writes to the database behind a feature, most of
-- the repositories that no service calls yet (a scope check and one SQL statement each), SQL itself, the
-- start-up and shut-down of processes, tracing and logging (but for the log line of an error), the
-- lock between the calls of one client, the Protobuf codec, which only calls prost, and the expiry
-- of a key between two commands of one operation.
mod Prelude
pub mod Audit
pub mod Contracts
pub mod ErrorCore
pub mod Redis
pub mod DataRedis
pub mod Postgres
pub mod Transport
pub mod Storage
pub mod Json
pub mod Service
pub mod DataStorage
pub mod DataPostgres
pub mod Services
pub mod Outbox
