-- ===== src/Contracts.antt =====
-- server/crates/contracts: the messages that the services exchange. `prost` generates the types
-- `Envelope`, `ErrorEnvelope` and `KeyValue` from schemas/envelope.proto and schemas/errors.proto;
-- their enums travel as `i32`. `TenantEnvelope` is written by hand in src/envelope.rs.
use smart_core_assistant_v.Prelude.{ℕ, Bool, List, Option, [], Text}

pub data ProtoCategory : Type 0 where
  unspecified validation auth permission conflict not_found rate_limit : ProtoCategory
  dependency timeout internal : ProtoCategory

-- `category as i32`
abbrev pub category_number : ProtoCategory → ℕ
category_number ProtoCategory.unspecified = 0
category_number ProtoCategory.validation = 1
category_number ProtoCategory.auth = 2
category_number ProtoCategory.permission = 3
category_number ProtoCategory.conflict = 4
category_number ProtoCategory.not_found = 5
category_number ProtoCategory.rate_limit = 6
category_number ProtoCategory.dependency = 7
category_number ProtoCategory.timeout = 8
category_number ProtoCategory.internal = 9

pub data ProtoSeverity : Type 0 where
  unspecified info warning error critical : ProtoSeverity

-- `severity as i32`
abbrev pub severity_number : ProtoSeverity → ℕ
severity_number ProtoSeverity.unspecified = 0
severity_number ProtoSeverity.info = 1
severity_number ProtoSeverity.warning = 2
severity_number ProtoSeverity.error = 3
severity_number ProtoSeverity.critical = 4

pub data MessageKind : Type 0 where
  unspecified event request reply stream_item error : MessageKind

-- `kind as i32`
abbrev pub kind_number : MessageKind → ℕ
kind_number MessageKind.unspecified = 0
kind_number MessageKind.event = 1
kind_number MessageKind.request = 2
kind_number MessageKind.reply = 3
kind_number MessageKind.stream_item = 4
kind_number MessageKind.error = 5

pub record KeyValue : Type 0 where
  pub key : Text
  pub value : Text

pub record ErrorEnvelope : Type 0 where
  pub code : Text
  pub category : ℕ
  pub severity : ℕ
  pub message : Text
  pub user_message : Text
  pub user_message_fallback : Text
  pub retryable : Bool
  pub trace_id : Text
  pub source_svc : Text
  pub details : List KeyValue
  pub occurred_at : ℕ

-- The payload is a list of bytes.
pub record Envelope : Type 0 where
  pub tenant_id : Text
  pub schema_version : ℕ
  pub message_id : Text
  pub causation_id : Text
  pub traceparent : Text
  pub occurred_at : ℕ
  pub kind : ℕ
  pub method : Text
  pub payload : List ℕ
  pub error : Option ErrorEnvelope

-- `U` is the type of `Uuid`, `D` that of `DateTime<Utc>`, `T` that of the payload.
pub record TenantEnvelope (U D T : Type 0) : Type 0 where
  pub tenant_id : U
  pub event_id : U
  pub event_type : Text
  pub timestamp : D
  pub traceparent : Text
  pub payload : T

-- `now_v7` and `now` are the values that `Uuid::now_v7()` and `Utc::now()` return.
unfoldable pub novo : {U D T : Type 0} → U → D → U → Text → T → TenantEnvelope U D T
novo now_v7 now tenant_id event_type payload = record {
  tenant_id = tenant_id;
  event_id = now_v7;
  event_type = event_type;
  timestamp = now;
  traceparent = [];
  payload = payload;
}

unfoldable pub com_traceparent :
    {U D T : Type 0} → TenantEnvelope U D T → Text → TenantEnvelope U D T
com_traceparent env traceparent = record env { traceparent = traceparent }
