-- ===== src/Audit/Rows.antt =====
-- The rows of audit_log that the events of the services become: observability/src/audit.rs, the stream
-- of transport/src/bus.rs and apps/data_postgres/src/main.rs.
use smart_core_assistant_v.Prelude.{
  ℕ, ◌≡◌, refl, ap, ◌∙◌, Option, none, some, List, [], ◌∷◌, ◌++◌, ◌⊎◌, inl, inr, Text,
}
use smart_core_assistant_v.Prelude.Steps.{◌>>◌, bind_ok}
use smart_core_assistant_v.Contracts.{TenantEnvelope, novo, com_traceparent}
use smart_core_assistant_v.Postgres.Errors.{DbError}
use smart_core_assistant_v.Postgres.Repositories.{Banco, run_in_tenant_transaction}
use smart_core_assistant_v.Postgres.Transaction.{VistaLaws, Atomico, em_transacao-Atomico}
use smart_core_assistant_v.Transport.Error.{ok}
use smart_core_assistant_v.Transport.Bus.Events.{
  Formats, FormatsLaws, stream_seguranca, maxlen_aprox, publicar_evento_no_stream,
  desserializar-publicado, extrair_evento, gravada, campos,
}
use smart_core_assistant_v.Audit.Logger.{
  AuditLogPayload, Ocorrencia, payload_de, evento_tenant, evento_global, log_tenant_event,
  log_global_event,
}
use smart_core_assistant_v.Audit.Consumer.{
  NewAuditLogEntry, entrada_de, Insercoes, inserir_audit_log, inserir_audit_log_global, consolidar,
  lido, processar_evento_auditoria,
}

-- An INSERT that succeeds adds its row. One on a pool that reports an error may have taken effect.
pub record InsercoesLaws {U J : Type 0} (b : Banco U) (sql : Insercoes b J) : Type 0 where
  pub vista : VistaLaws b (List (NewAuditLogEntry U J))
  pub insert_ok :
      (row : NewAuditLogEntry U J) (tx : b.Tx) (id : U) (end : b.Tx)
      → sql.insert row tx ≡ (inr id, end)
      → vista.tx_view end ≡ vista.tx_view tx ++ row ∷ []
  pub insert_pool_ok :
      (row : NewAuditLogEntry U J) (w : b.W) (id : U) (v : b.W)
      → sql.insert_pool row w ≡ (inr id, v)
      → vista.view v ≡ vista.view w ++ row ∷ []
  pub insert_pool_err :
      (row : NewAuditLogEntry U J) (w : b.W) (e : DbError) (v : b.W)
      → sql.insert_pool row w ≡ (inl e, v)
      → (vista.view v ≡ vista.view w) ⊎ (vista.view v ≡ vista.view w ++ row ∷ [])

module _ {U J : Type 0} (b : Banco U) (sql : Insercoes b J) (laws : InsercoesLaws b sql) where
  open b use {W}

  -- The row is at the end of the table, or nothing changed and the outcome is an error.
  abbrev pub Consolidada : NewAuditLogEntry U J → W → (DbError ⊎ U) × W → Type 0
  Consolidada row w r =
      (laws.vista.view r.1 ≡ laws.vista.view w ++ row ∷ [])
      ⊎ ((laws.vista.view r.1 ≡ laws.vista.view w) × ((e : DbError) × (r.0 ≡ inl e)))

  atomic-Consolidada :
      (row : NewAuditLogEntry U J) (tenant_id : U) (w : W) (r : (DbError ⊎ U) × W)
      → Atomico b laws.vista (b.set_config tenant_id >> inserir_audit_log b sql row) w r
      → Consolidada row w r
  unfolding inserir_audit_log
  atomic-Consolidada row tenant_id w r (inr failed) = inr failed
  atomic-Consolidada row tenant_id w r (inl (id, (tx, end, from, ran, out))) =
      let (_, t0, set, e0) = bind_ok (b.set_config tenant_id) (λ _. sql.insert row) tx ran in
      inl (
        out
        ∙ laws.insert_ok row t0 id end e0
        ∙ ap (λ z. z ++ row ∷ []) (laws.vista.set_config_ok tenant_id tx t0 set ∙ from))

  pool-Consolidada :
      (row : NewAuditLogEntry U J) (w : W) (r : (DbError ⊎ U) × W)
      → sql.insert_pool row w ≡ r
      → Consolidada row w r
  pool-Consolidada row w (inr id, v) h = inl (laws.insert_pool_ok row w id v h)
  pool-Consolidada row w (inl e, v) h = elim (laws.insert_pool_err row w e v h) [
    | inl same ↦ inr (same, (e, refl))
    | inr added ↦ inl added
  ]

  -- The row is of the tenant that the event names, or of none.
  pub consolidar-Consolidada :
      (entry : NewAuditLogEntry U J) (w : W) (tenant_id : Option U)
      → Consolidada
          (record entry { tenant_id = tenant_id })
          w
          (consolidar b sql (record entry { tenant_id = tenant_id }) tenant_id w)
  unfolding consolidar inserir_audit_log_global run_in_tenant_transaction
  consolidar-Consolidada entry w (some t) =
      let row = record entry { tenant_id = some t } in
      atomic-Consolidada row t w _
        (em_transacao-Atomico b laws.vista (b.set_config t >> inserir_audit_log b sql row) w)
  consolidar-Consolidada entry w none =
      pool-Consolidada (record entry { tenant_id = none }) w _ refl

  module _ {D : Type 0} (formats : Formats U D (AuditLogPayload U J))
      (formats_laws : FormatsLaws formats) where
    -- What the consumer does with the entry of a published event is what it does with the event.
    published :
        (evento : TenantEnvelope U D (AuditLogPayload U J)) (printed id : Text) (w : W)
        → formats.to_string evento.payload ≡ inr printed
        → processar_evento_auditoria b sql formats
            (extrair_evento formats (gravada formats id (campos formats evento printed)))
            w
          ≡ (ok tt, (consolidar b sql (entrada_de evento.payload) evento.payload.tenant_id w).1)
    unfolding processar_evento_auditoria
    published evento printed id w shown =
        ap (λ r. lido b sql formats r w)
          (desserializar-publicado formats formats_laws evento printed id shown).0

    handed :
        {R : Type 0} (xadd : Text → ℕ → List (Text × Text) → R → (Text ⊎ Text) × R)
        (evento : TenantEnvelope U D (AuditLogPayload U J)) (printed : Text) (redis : R)
        → formats.to_string evento.payload ≡ inr printed
        → (publicar_evento_no_stream formats xadd stream_seguranca evento redis).1
          ≡ (xadd stream_seguranca maxlen_aprox (campos formats evento printed) redis).1
    unfolding publicar_evento_no_stream
    handed xadd evento printed redis shown = rw (publicar_evento_no_stream, shown) refl

    -- The event of a call of the logger: for a tenant, or of the system.
    abbrev pub evento_registrado :
        Text → U → D → U → Option U → Text → Ocorrencia J → TenantEnvelope U D (AuditLogPayload U J)
    evento_registrado service_name event_id agora nil (some t) level o =
        evento_tenant service_name event_id agora t level o
    evento_registrado service_name event_id agora nil none level o =
        evento_global service_name event_id agora nil level o

    abbrev pub registrar :
        {R : Type 0}
        → (Text → ℕ → List (Text × Text) → R → (Text ⊎ Text) × R)
        → Text
        → U
        → D
        → U
        → Option U
        → Text
        → Ocorrencia J
        → R
        → R
    registrar xadd service_name event_id agora nil (some t) level o =
        log_tenant_event formats xadd nil service_name event_id agora t level o
    registrar xadd service_name event_id agora nil none level o =
        log_global_event formats xadd nil service_name event_id agora level o

    abbrev pub linha_de : Text → Option U → Text → Ocorrencia J → NewAuditLogEntry U J
    linha_de service_name tenant_id level o = record {
      tenant_id = tenant_id;
      level = level;
      service = service_name;
      trace_id = o.trace_id;
      event = o.event;
      message = o.message;
      context = o.context;
      user_id = o.user_id;
      ip_address = o.ip_address;
    }

    -- A call of the logger hands one entry to the stream of security events, and the consumer's work on
    -- that entry succeeds. After it the row of the call, with the service's name, the level, and the
    -- tenant or none, is at the end of the table, or the table has not changed and the database reported
    -- an error. The payload can be printed.
    pub logged_event_row :
        {R : Type 0} (xadd : Text → ℕ → List (Text × Text) → R → (Text ⊎ Text) × R)
        (service_name : Text) (event_id : U) (agora : D) (nil : U) (tenant_id : Option U)
        (level : Text) (o : Ocorrencia J) (printed id : Text) (redis : R) (w : W)
        → formats.to_string (payload_de service_name tenant_id level o) ≡ inr printed
        → (registrar xadd service_name event_id agora nil tenant_id level o redis
            ≡ (xadd stream_seguranca maxlen_aprox
                (campos formats
                  (evento_registrado service_name event_id agora nil tenant_id level o)
                  printed)
                redis).1)
          × (processar_evento_auditoria b sql formats
                (extrair_evento formats (
                  gravada formats id (
                    campos formats
                      (evento_registrado service_name event_id agora nil tenant_id level o)
                      printed)))
                w
              ≡ (ok tt, (consolidar b sql (linha_de service_name tenant_id level o) tenant_id w).1))
          × Consolidada
              (linha_de service_name tenant_id level o)
              w
              (consolidar b sql (linha_de service_name tenant_id level o) tenant_id w)
    unfolding log_tenant_event log_global_event evento_tenant evento_global novo com_traceparent
    logged_event_row xadd service event_id agora nil (some t) level o printed id redis w shown = (
      handed xadd (evento_tenant service event_id agora t level o) printed redis shown,
      published (evento_tenant service event_id agora t level o) printed id w shown,
      consolidar-Consolidada (linha_de service (some t) level o) w (some t),
    )
    logged_event_row xadd service event_id agora nil none level o printed id redis w shown = (
      handed xadd (evento_global service event_id agora nil level o) printed redis shown,
      published (evento_global service event_id agora nil level o) printed id w shown,
      consolidar-Consolidada (linha_de service none level o) w none,
    )
