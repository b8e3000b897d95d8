-- ===== src/Audit/Consumer.antt =====
-- processar_evento_auditoria of apps/data_postgres/src/main.rs over
-- infrastructure_postgres/src/auditoria/audit_log.rs. The INSERT statements are a parameter.
use smart_core_assistant_v.Prelude.{Option, none, some, Text}
use smart_core_assistant_v.Prelude.Steps.{Step}
use smart_core_assistant_v.Contracts.{TenantEnvelope}
use smart_core_assistant_v.Redis.Server.{I64}
use smart_core_assistant_v.Postgres.Errors.{DbError}
use smart_core_assistant_v.Postgres.Repositories.{Banco, run_in_tenant_transaction}
use smart_core_assistant_v.Transport.Error.{Result, ok, err}
use smart_core_assistant_v.Transport.Bus.Events.{EventoBruto, Formats, desserializar}
use smart_core_assistant_v.Audit.Logger.{AuditLogPayload}

pub record NewAuditLogEntry (U J : Type 0) : Type 0 where
  pub tenant_id : Option U
  pub level : Text
  pub service : Text
  pub trace_id : Option Text
  pub event : Text
  pub message : Text
  pub context : J
  pub user_id : Option I64
  pub ip_address : Option Text

abbrev pub entrada_de : {U J : Type 0} → AuditLogPayload U J → NewAuditLogEntry U J
entrada_de p = record {
  tenant_id = p.tenant_id;
  level = p.level;
  service = p.service;
  trace_id = p.trace_id;
  event = p.event;
  message = p.message;
  context = p.context;
  user_id = p.user_id;
  ip_address = p.ip_address;
}

-- An INSERT of the nine columns: in a transaction, and on a pool as a transaction of its own. It gives
-- the identifier of the row.
pub record Insercoes {U : Type 0} (b : Banco U) (J : Type 0) : Type 0 where
  pub insert : NewAuditLogEntry U J → Step b.Tx DbError U
  pub insert_pool : NewAuditLogEntry U J → Step b.W DbError U

module _ {U J : Type 0} (b : Banco U) (sql : Insercoes b J) where
  open b use {W, Tx}

  unfoldable pub inserir_audit_log : NewAuditLogEntry U J → Step Tx DbError U
  inserir_audit_log entry = sql.insert entry

  -- The column of the tenant is NULL, whatever the entry says.
  unfoldable pub inserir_audit_log_global : NewAuditLogEntry U J → Step W DbError U
  inserir_audit_log_global entry = sql.insert_pool (record entry { tenant_id = none })

  unfoldable pub consolidar : NewAuditLogEntry U J → Option U → Step W DbError U
  consolidar entry (some tenant_id) =
      run_in_tenant_transaction b tenant_id (inserir_audit_log entry)
  consolidar entry none = inserir_audit_log_global entry

  module _ {D : Type 0} (formats : Formats U D (AuditLogPayload U J)) where
    -- The error of the database is logged.
    abbrev pub lido : Result (TenantEnvelope U D (AuditLogPayload U J)) → W → Result (Unit {0}) × W
    lido (err e) w = (err e, w)
    lido (ok envelope) w =
        (ok tt, (consolidar (entrada_de envelope.payload) envelope.payload.tenant_id w).1)

    unfoldable pub processar_evento_auditoria : EventoBruto → W → Result (Unit {0}) × W
    processar_evento_auditoria evt w = lido (desserializar formats evt) w
