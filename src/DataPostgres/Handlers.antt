-- ===== src/DataPostgres/Handlers.antt =====
-- The handlers of apps/data_postgres/src/main.rs that work in one transaction.
use smart_core_assistant_v.Prelude.{
  ℕ, Option, none, some, List, [], ◌∷◌, ◌⊎◌, inl, inr, map, Text, txt, text_eq, ◌==◌, if◌then◌else◌,
}
use smart_core_assistant_v.Prelude.Steps.{Step, lift, pure, ◌>>=◌, ◌>>◌}
use smart_core_assistant_v.Contracts.{Envelope}
use smart_core_assistant_v.ErrorCore.App.{AppError}
use smart_core_assistant_v.Service.{reply, refuse, conclude}
use smart_core_assistant_v.Redis.Server.{I64, nonneg}
use smart_core_assistant_v.DataRedis.Json.{as_i32}
use smart_core_assistant_v.Json.{JsonValue, unwrap_or, str_field, i64_field, body}
use smart_core_assistant_v.Postgres.Errors.{DbError, display}
use smart_core_assistant_v.Postgres.Security.{RequestContext}
use smart_core_assistant_v.Postgres.Repositories.{
  Banco, NovaMensagem, OutboxEntry, em_transacao, run_in_tenant_transaction, criar_mensagem,
  listar_por_atendimento, listar_por_status, salvar_contato, criar_tenant,
}

abbrev pub svc : Text
svc = txt "data_postgres"

-- Every error of the database is wrapped by its text.
unfoldable pub falha : Text → ℕ → Envelope → DbError → Envelope
falha method now env e = refuse method svc now (AppError.database (display e)) env

-- What the handlers use of uuid, of the readers of texts and of the rows.
pub record Leitores (U : Type 0) (b : Banco U) (json : JsonValue) : Type 0 where
  pub parse_str : Text → Option U
  pub nil : U
  pub from_utf8_lossy : List ℕ → Text
  pub to_lowercase : Text → Text
  pub mensagem_id : b.Mensagem → I64
  pub id_to_string : I64 → Text
  pub remetente_de : b.Mensagem → Text
  pub conteudo_de : b.Mensagem → Text
  pub timestamp_millis : b.Mensagem → I64
  pub mensagem_json : b.Mensagem → json.J
  pub atendimento_json : b.Atendimento → json.J
  pub contato_json : b.Contato → json.J
  pub tenant_json : b.Tenant → json.J

-- `replace(' ', "-")`
abbrev pub hifens : Text → Text
hifens t = map (λ c. if c == 32 then 45 else c) t

module _ {U : Type 0} (b : Banco U) (json : JsonValue) (l : Leitores U b json) where
  open b use {W, Tx, Mensagem}
  open json use {J}

  abbrev pub tenant : Envelope → U
  tenant env = unwrap_or l.nil (l.parse_str env.tenant_id)

  abbrev pub contexto : Envelope → Text → RequestContext U
  contexto env escopo = record {
    tenant_id = tenant env;
    user_id = nonneg 1;
    user_scopes = escopo ∷ [];
    flow_permissions = [];
  }

  abbrev pub i32_field : Text → J → Option I64
  i32_field name j = elim (i64_field json name j) [ none ↦ none | some v ↦ some (as_i32 v) ]

  unfoldable pub handler_get_thread : ℕ → Envelope → W → Envelope × W
  handler_get_thread now env w =
      let j = body json env.payload in
      let atendimento_id = unwrap_or (nonneg 1) (i32_field (txt "atendimento_id") j) in
      let limit = unwrap_or (nonneg 50) (i64_field json (txt "limit") j) in
      let offset = unwrap_or (nonneg 0) (i64_field json (txt "offset") j) in
      conclude
        (λ mensagens.
          reply (txt "GetThread")
            (json.to_vec (
              json.object (
                (txt "atendimento_id", json.integer atendimento_id)
                ∷ (txt "mensagens", json.array (map l.mensagem_json mensagens))
                ∷ [])))
            env)
        (falha (txt "GetThread") now env)
        (run_in_tenant_transaction b (tenant env)
          (listar_por_atendimento b (contexto env (txt "atendimentos:read")) atendimento_id limit
            offset)
          w)

  unfoldable pub handler_list_atendimentos : ℕ → Envelope → W → Envelope × W
  handler_list_atendimentos now env w =
      let j = body json env.payload in
      let status = unwrap_or (txt "em_atendimento") (str_field json (txt "status") j) in
      let departamento_id = i32_field (txt "departamento_id") j in
      let limit = unwrap_or (nonneg 50) (i64_field json (txt "limit") j) in
      conclude
        (λ atendimentos.
          reply (txt "ListAtendimentos")
            (json.to_vec (
              json.object
                ((txt "atendimentos", json.array (map l.atendimento_json atendimentos)) ∷ [])))
            env)
        (falha (txt "ListAtendimentos") now env)
        (run_in_tenant_transaction b (tenant env)
          (listar_por_status b (contexto env (txt "atendimentos:read")) status departamento_id
            limit)
          w)

  abbrev pub slug_de : Text → Text → Text
  slug_de name slug_in = if text_eq slug_in [] then hifens (l.to_lowercase name) else slug_in

  -- `new_id` and `api_key` are drawn by the repository.
  unfoldable pub handler_create_tenant : U → Text → ℕ → Envelope → W → Envelope × W
  handler_create_tenant new_id api_key now env w =
      let j = body json env.payload in
      let name = unwrap_or (txt "Novo Tenant") (str_field json (txt "name") j) in
      let slug = slug_de name (unwrap_or [] (str_field json (txt "slug") j)) in
      conclude
        (λ criado.
          reply (txt "CreateTenant")
            (json.to_vec (
              json.object (
                (txt "status", json.string (txt "success"))
                ∷ (txt "tenant", l.tenant_json criado)
                ∷ [])))
            env)
        (falha (txt "CreateTenant") now env)
        (em_transacao b
          (criar_tenant b new_id api_key name slug none (str_field json (txt "email") j)
            (str_field json (txt "phone") j))
          w)

  -- A payload that is not JSON is the content of the message.
  abbrev pub corpo_ou_texto : List ℕ → J
  corpo_ou_texto payload =
      unwrap_or (json.object ((txt "content", json.string (l.from_utf8_lossy payload)) ∷ []))
        (json.from_slice payload)

  abbrev pub nova_mensagem : J → NovaMensagem
  nova_mensagem j = record {
    atendimento_id = unwrap_or (nonneg 1) (i32_field (txt "atendimento_id") j);
    tipo = unwrap_or (txt "texto") (str_field json (txt "tipo") j);
    conteudo = unwrap_or (txt "Mensagem padrão") (str_field json (txt "content") j);
    remetente = unwrap_or (txt "usuario") (str_field json (txt "sender_id") j);
  }

  abbrev pub evento_de : Mensagem → J
  evento_de msg = json.object (
      (txt "message_id", json.string (l.id_to_string (l.mensagem_id msg)))
      ∷ (txt "sender_id", json.string (l.remetente_de msg))
      ∷ (txt "content", json.string (l.conteudo_de msg))
      ∷ (txt "timestamp", json.integer (l.timestamp_millis msg))
      ∷ [])

  abbrev pub config_error : Text ⊎ List ℕ → DbError ⊎ List ℕ
  config_error (inl e) = inl (DbError.config_error e)
  config_error (inr bytes) = inr bytes

  abbrev pub na_outbox : Envelope → List ℕ → OutboxEntry U
  na_outbox env payload = record {
    tenant_id = tenant env;
    event_type = txt "message.persisted";
    payload = payload;
    traceparent = env.traceparent;
  }

  -- The callback of the transaction.
  unfoldable pub persistir : Envelope → Step Tx DbError Mensagem
  persistir env = do
    msg ←
        criar_mensagem b (contexto env (txt "atendimentos:write"))
          (nova_mensagem (corpo_ou_texto env.payload))
    bytes ← lift (config_error (json.try_to_vec (evento_de msg)))
    b.insert_outbox (na_outbox env bytes)
    pure msg

  unfoldable pub handler_persist_message : ℕ → Envelope → W → Envelope × W
  handler_persist_message now env w =
      conclude
        (λ msg.
          reply (txt "PersistMessage")
            (json.to_vec (
              json.object (
                (txt "status", json.string (txt "success"))
                ∷ (txt "message_id", json.integer (l.mensagem_id msg))
                ∷ [])))
            env)
        (falha (txt "PersistMessage") now env)
        (run_in_tenant_transaction b (tenant env) (persistir env) w)

  -- The reply keeps the field `error` of the request.
  unfoldable pub handler_upsert_contact : ℕ → Envelope → W → Envelope × W
  handler_upsert_contact now env w =
      let j = body json env.payload in
      let telefone = unwrap_or (txt "5511999999999") (str_field json (txt "phone") j) in
      conclude
        (λ contato.
          record (reply (txt "UpsertContact") (json.to_vec (l.contato_json contato)) env) {
            error = env.error;
          })
        (falha (txt "UpsertContact") now env)
        (run_in_tenant_transaction b (tenant env)
          (salvar_contato b (contexto env (txt "clientes:write")) telefone
            (str_field json (txt "name") j))
          w)
