-- ===== src/Services/Rpc.antt =====
-- What a service uses of transport/src/runtime.rs to call another one by name, as a parameter, and the
-- request that the services build.
use smart_core_assistant_v.Prelude.{ℕ, none, List, Text}
use smart_core_assistant_v.Prelude.Steps.{Step}
use smart_core_assistant_v.Contracts.{Envelope, MessageKind, kind_number}
use smart_core_assistant_v.Transport.Error.{TransportError}

-- `conectar` is conectar_cliente, `call` the call of the client it gave. `display` and `debug` print.
pub record Rpc : Type 1 where
  pub W : Type 0
  pub conectar : Text → Step W TransportError (Unit {0})
  pub call : Text → Envelope → Step W TransportError Envelope
  pub display : TransportError → Text
  pub debug : TransportError → Text

-- What `Uuid::now_v7` and `Utc::now` return for a request.
pub record Agora : Type 0 where
  pub message_id : Text
  pub occurred_at : ℕ

abbrev pub pedido : Agora → Text → Text → Text → Text → List ℕ → Envelope
pedido agora tenant_id causation_id traceparent method payload = record {
  tenant_id = tenant_id;
  schema_version = 1;
  message_id = agora.message_id;
  causation_id = causation_id;
  traceparent = traceparent;
  occurred_at = agora.occurred_at;
  kind = kind_number MessageKind.request;
  method = method;
  payload = payload;
  error = none;
}
