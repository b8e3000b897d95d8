-- ===== src/Audit/Logger.antt =====
-- The AuditLogger of observability/src/audit.rs with a connection to Redis, as `new_with_redis` makes
-- it. The logger of the tests, which writes to the database, is behind a feature.
use smart_core_assistant_v.Prelude.{ℕ, Option, none, some, List, [], ◌⊎◌, Text, txt}
use smart_core_assistant_v.Contracts.{TenantEnvelope, novo, com_traceparent}
use smart_core_assistant_v.Redis.Server.{I64}
use smart_core_assistant_v.Json.{unwrap_or}
use smart_core_assistant_v.Transport.Bus.Events.{
  Formats, publicar_evento_no_stream, stream_seguranca,
}

pub record AuditLogPayload (U J : Type 0) : Type 0 where
  pub tenant_id : Option U
  pub level : Text
  pub service : Text
  pub trace_id : Option Text
  pub event : Text
  pub message : Text
  pub context : J
  pub user_id : Option I64
  pub ip_address : Option Text

-- What a service says of an event, beside its own name, the level and the tenant.
pub record Ocorrencia (J : Type 0) : Type 0 where
  pub event : Text
  pub message : Text
  pub context : J
  pub user_id : Option I64
  pub ip_address : Option Text
  pub trace_id : Option Text

abbrev pub payload_de : {U J : Type 0} → Text → Option U → Text → Ocorrencia J → AuditLogPayload U J
payload_de service_name tenant_id level o = record {
  tenant_id = tenant_id;
  level = level;
  service = service_name;
  trace_id = o.trace_id;
  event = o.event;
  message = o.message;
  context = o.context;
  user_id = o.user_id;
  ip_address = o.ip_address;
}

-- `event_id` and `agora` are what `Uuid::now_v7` and `Utc::now` return, and `sujeito` is the tenant of
-- the envelope.
abbrev pub envelope_de :
    {U D J : Type 0} → U → D → U → AuditLogPayload U J → TenantEnvelope U D (AuditLogPayload U J)
envelope_de event_id agora sujeito payload =
    com_traceparent (novo event_id agora sujeito (txt "audit_log") payload)
      (unwrap_or [] payload.trace_id)

unfoldable pub evento_tenant :
    {U D J : Type 0}
    → Text
    → U
    → D
    → U
    → Text
    → Ocorrencia J
    → TenantEnvelope U D (AuditLogPayload U J)
evento_tenant service_name event_id agora tenant_id level o =
    envelope_de event_id agora tenant_id (payload_de service_name (some tenant_id) level o)

unfoldable pub evento_global :
    {U D J : Type 0}
    → Text
    → U
    → D
    → U
    → Text
    → Ocorrencia J
    → TenantEnvelope U D (AuditLogPayload U J)
evento_global service_name event_id agora nil level o =
    envelope_de event_id agora nil (payload_de service_name none level o)

module _ {U D J W : Type 0} (formats : Formats U D (AuditLogPayload U J))
    (xadd : Text → ℕ → List (Text × Text) → W → (Text ⊎ Text) × W) (nil : U) (service_name : Text)
    (event_id : U) (agora : D) where
  -- The error of a publication is logged.
  unfoldable pub log_tenant_event : U → Text → Ocorrencia J → W → W
  log_tenant_event tenant_id level o w =
      (publicar_evento_no_stream formats xadd stream_seguranca
        (evento_tenant service_name event_id agora tenant_id level o) w).1

  unfoldable pub log_global_event : Text → Ocorrencia J → W → W
  log_global_event level o w =
      (publicar_evento_no_stream formats xadd stream_seguranca
        (evento_global service_name event_id agora nil level o) w).1

  unfoldable pub info : U → Ocorrencia J → W → W
  info tenant_id o = log_tenant_event tenant_id (txt "INFO") o

  unfoldable pub warn : U → Ocorrencia J → W → W
  warn tenant_id o = log_tenant_event tenant_id (txt "WARN") o

  unfoldable pub error : U → Ocorrencia J → W → W
  error tenant_id o = log_tenant_event tenant_id (txt "ERROR") o

  unfoldable pub info_global : Ocorrencia J → W → W
  info_global o = log_global_event (txt "INFO") o

  unfoldable pub warn_global : Ocorrencia J → W → W
  warn_global o = log_global_event (txt "WARN") o

  unfoldable pub error_global : Ocorrencia J → W → W
  error_global o = log_global_event (txt "ERROR") o
