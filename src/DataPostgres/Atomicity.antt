-- ===== src/DataPostgres/Atomicity.antt =====
-- handler_persist_message of apps/data_postgres/src/main.rs stores a message and its event together,
-- over run_in_tenant_transaction of infrastructure_postgres/src/connection.rs.
use smart_core_assistant_v.Prelude.{ℕ, ◌≡◌, List, [], ◌∷◌, ◌++◌, inr, txt}
use smart_core_assistant_v.Contracts.{Envelope}
use smart_core_assistant_v.Json.{JsonValue, unwrap_or}
use smart_core_assistant_v.Postgres.Repositories.{Banco}
use smart_core_assistant_v.Postgres.Transaction.{BancoLaws}
use smart_core_assistant_v.DataPostgres.Handlers.{Leitores, evento_de}

module _ {U : Type 0} (b : Banco U) (laws : BancoLaws b) where
  open b use {W, Tx}

  module _ (json : JsonValue) (l : Leitores U b json) where
    -- A message and the event made of it stand at the end of the two tables, and nothing else
    -- differs. The event belongs to the tenant and the trace of the request.
    abbrev pub Persistida : Envelope → W → W → Type 0
    Persistida env w v =
        (msg : b.Mensagem) × (bytes : List ℕ) × (json.try_to_vec (evento_de b json l msg)
          ≡ inr bytes)
        × (laws.vista.view v ≡ record {
          mensagens = (laws.vista.view w).mensagens ++ msg ∷ [];
          outbox =
              (laws.vista.view w).outbox
              ++ (record {
                tenant_id = unwrap_or l.nil (l.parse_str env.tenant_id);
                event_type = txt "message.persisted";
                payload = bytes;
                traceparent = env.traceparent;
              })
                ∷ [];
        })
