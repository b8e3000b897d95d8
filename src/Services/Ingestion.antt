-- ===== src/Services/Ingestion.antt =====
-- A message on its way from the webhook to the database: apps/messaging_gateway/src/main.rs publishes
-- it on the bus, apps/worker/src/main.rs reads it there and calls apps/data_postgres/src/main.rs.
use smart_core_assistant_v.Prelude.{ℕ, ◌⊎◌, inl, inr, Text}
use smart_core_assistant_v.Contracts.{Envelope}
use smart_core_assistant_v.Json.{JsonValue}
use smart_core_assistant_v.Transport.Error.{TransportError}
use smart_core_assistant_v.Transport.Bus.Events.{Formats}
use smart_core_assistant_v.Postgres.Repositories.{Banco}
use smart_core_assistant_v.DataPostgres.Handlers.{Leitores, handler_persist_message}
use smart_core_assistant_v.Services.Rpc.{Rpc}
use smart_core_assistant_v.Services.Worker.{Falha}

module _ {U D : Type 0} (b : Banco U) (json : JsonValue) (l : Leitores U b json)
    (formats : Formats U D json.J) (display : TransportError → Text) (now : ℕ) where
  open b use {W}

  -- Calls that reach the handler of data_postgres.
  abbrev pub direto : Rpc
  direto = record {
    W = W;
    conectar = λ service w. (inr tt, w);
    call =
        λ service req w. let (out, v) = handler_persist_message b json l now req w in (inr out, v);
    display = display;
    debug = display;
  }

  abbrev out_of : Envelope → Falha ⊎ Envelope → Envelope
  out_of d (inl e) = d
  out_of d (inr out) = out
