-- ===== src/Postgres/Repositories.antt =====
-- run_in_tenant_transaction of infrastructure_postgres/src/connection.rs, and the operations of the
-- repositories that apps/data_postgres calls. What sqlx does with the queries is a parameter.
use smart_core_assistant_v.Prelude.{ℕ, Bool, Option, List, [], ◌∷◌, ◌⊎◌, inl, inr, Text, txt}
use smart_core_assistant_v.Prelude.Steps.{Step, lift, map_err, pure, ◌>>◌}
use smart_core_assistant_v.Redis.Server.{I64, nonneg}
use smart_core_assistant_v.Json.{unwrap_or}
use smart_core_assistant_v.Postgres.Errors.{DbError, SqlxError, from_sqlx_unique}
use smart_core_assistant_v.Postgres.Security.{RequestContext, exigir_qualquer}

-- A row of `auth_user`; the dates are in milliseconds.
pub record AuthUser : Type 0 where
  pub id : I64
  pub username : Text
  pub email : Text
  pub password_hash : Text
  pub first_name : Text
  pub last_name : Text
  pub is_active : Bool
  pub is_staff : Bool
  pub is_superuser : Bool
  pub last_login : Option ℕ
  pub date_joined : ℕ

-- What `criar` of the messages binds, beside the tenant: the other two columns are left null.
pub record NovaMensagem : Type 0 where
  pub atendimento_id : I64
  pub tipo : Text
  pub conteudo : Text
  pub remetente : Text

pub record OutboxEntry (U : Type 0) : Type 0 where
  pub tenant_id : U
  pub event_type : Text
  pub payload : List ℕ
  pub traceparent : Text

-- `W` is the database with its connections, `Tx` a transaction that has begun. A transaction that is
-- dropped is rolled back. The rows of the tables are types of their own.
pub record Banco (U : Type 0) : Type 1 where
  pub W : Type 0
  pub Tx : Type 0
  pub Mensagem : Type 0
  pub Atendimento : Type 0
  pub Contato : Type 0
  pub Tenant : Type 0
  pub begin : W → (DbError ⊎ Tx) × W
  pub set_config : U → Step Tx DbError (Unit {0})
  pub commit : Tx → Step W DbError (Unit {0})
  pub insert_mensagem : U → NovaMensagem → Step Tx DbError Mensagem
  pub select_mensagens : U → I64 → I64 → I64 → Step Tx DbError (List Mensagem)
  pub insert_outbox : OutboxEntry U → Step Tx DbError (Unit {0})
  pub select_atendimentos : U → Text → Option I64 → I64 → Step Tx DbError (List Atendimento)
  pub upsert_contato : U → Text → Option Text → Step Tx SqlxError Contato
  pub insert_tenant : U → Text → Text → Text → I64 → Text → Option Text → Step Tx SqlxError Tenant
  pub select_usuario : Text → Step W DbError (Option AuthUser)
  pub update_ultimo_login : I64 → Step W DbError (Unit {0})

module _ {U : Type 0} (b : Banco U) where
  open b use {W, Tx}

  -- What the callback gave decides: an error drops the transaction.
  abbrev pub encerrar : {A : Type 0} → (DbError ⊎ A) × Tx → Step W DbError A
  encerrar (inl e, tx) w = (inl e, w)
  encerrar (inr a, tx) w = (b.commit tx >> pure a) w

  abbrev pub aberta : {A : Type 0} → Step Tx DbError A → (DbError ⊎ Tx) × W → (DbError ⊎ A) × W
  aberta bloco (inl e, w) = (inl e, w)
  aberta bloco (inr tx, w) = encerrar (bloco tx) w

  abbrev pub em_transacao : {A : Type 0} → Step Tx DbError A → Step W DbError A
  em_transacao bloco w = aberta bloco (b.begin w)

  unfoldable pub run_in_tenant_transaction : {A : Type 0} → U → Step Tx DbError A → Step W DbError A
  run_in_tenant_transaction tenant_id callback = em_transacao (b.set_config tenant_id >> callback)

  -- No scope is asked for.
  unfoldable pub criar_mensagem : RequestContext U → NovaMensagem → Step Tx DbError b.Mensagem
  criar_mensagem ctx nova = b.insert_mensagem ctx.tenant_id nova

  unfoldable pub listar_por_atendimento :
      RequestContext U → I64 → I64 → I64 → Step Tx DbError (List b.Mensagem)
  listar_por_atendimento ctx atendimento_id limit offset =
      lift (exigir_qualquer ctx (txt "atendimentos:read" ∷ txt "tenant:admin" ∷ []))
      >> b.select_mensagens ctx.tenant_id atendimento_id limit offset

  unfoldable pub listar_por_status :
      RequestContext U → Text → Option I64 → I64 → Step Tx DbError (List b.Atendimento)
  listar_por_status ctx status departamento_id limit =
      lift (exigir_qualquer ctx (txt "atendimentos:read" ∷ txt "tenant:admin" ∷ []))
      >> b.select_atendimentos ctx.tenant_id status departamento_id limit

  unfoldable pub salvar_contato : RequestContext U → Text → Option Text → Step Tx DbError b.Contato
  salvar_contato ctx telefone nome_contato =
      lift (exigir_qualquer ctx (txt "clientes:write" ∷ txt "tenant:admin" ∷ []))
      >> map_err from_sqlx_unique (b.upsert_contato ctx.tenant_id telefone nome_contato)

  -- `new_id` and `api_key` are the values that the two calls of `Uuid::new_v4` give.
  unfoldable pub criar_tenant :
      U → Text → Text → Text → Option I64 → Option Text → Option Text → Step Tx DbError b.Tenant
  criar_tenant new_id api_key name slug owner_id email phone =
      b.set_config new_id
      >> map_err from_sqlx_unique (
          b.insert_tenant new_id name slug api_key (unwrap_or (nonneg 1) owner_id)
            (unwrap_or [] email) phone)
