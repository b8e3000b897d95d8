-- ===== src/DataPostgres/Replies.antt =====
-- What a caller of data_postgres (apps/data_postgres/src/main.rs) gets back.
use smart_core_assistant_v.Prelude.{ℕ, ◌≡◌, refl, none, List, ◌⊎◌, inl, Text, txt}
use smart_core_assistant_v.Contracts.{Envelope}
use smart_core_assistant_v.Service.{
  Answered, reply, reply-Answered, refuse-Answered, conclude-Answered,
}
use smart_core_assistant_v.Json.{JsonValue}
use smart_core_assistant_v.Postgres.Errors.{DbError}
use smart_core_assistant_v.Postgres.Repositories.{Banco}
use smart_core_assistant_v.Transport.Bus.Events.{Formats}
use smart_core_assistant_v.DataPostgres.Handlers.{
  svc, falha, Leitores, handler_get_thread, handler_list_atendimentos, handler_create_tenant,
  handler_persist_message, handler_upsert_contact,
}
use smart_core_assistant_v.Audit.Logger.{AuditLogPayload}
use smart_core_assistant_v.DataPostgres.Credentials.{
  Argon2, handler_verify_credentials, verify-Answered,
}

-- The methods that `main` routes.
pub data Metodo : Type 0 where
  get_thread persist_message verify_credentials upsert_contact list_atendimentos : Metodo
  create_tenant : Metodo

-- Their names.
abbrev pub nome : Metodo → Text
nome get_thread = txt "GetThread"
nome persist_message = txt "PersistMessage"
nome verify_credentials = txt "VerifyCredentials"
nome upsert_contact = txt "UpsertContact"
nome list_atendimentos = txt "ListAtendimentos"
nome create_tenant = txt "CreateTenant"

pub falha-Answered :
    (method : Text) (now : ℕ) (env : Envelope) (e : DbError)
    → Answered svc method env (falha method now env e)
unfolding falha
falha-Answered method now env e = refuse-Answered svc method now _ env

contact-Answered :
    (payload : List ℕ) (env : Envelope)
    → env.error ≡ none
    → Answered svc
        (txt "UpsertContact")
        env
        (record (reply (txt "UpsertContact") payload env) { error = env.error })
unfolding reply
contact-Answered payload env h = (refl, refl, refl, refl, inl (refl, h))

module _ {U : Type 0} (b : Banco U) (json : JsonValue) (l : Leitores U b json) where
  open b use {W}

  pub persist-Answered :
      (now : ℕ) (env : Envelope) (w : W)
      → Answered svc (txt "PersistMessage") env (handler_persist_message b json l now env w).0
  unfolding handler_persist_message
  persist-Answered now env w =
      conclude-Answered svc (txt "PersistMessage") env _ _ _
        (λ a. reply-Answered svc (txt "PersistMessage") _ env)
        (falha-Answered (txt "PersistMessage") now env)

-- What a request finds: the identifiers, the key and the times that are drawn for it.
pub record Sorteio (U D : Type 0) : Type 0 where
  pub id : U
  pub api_key : Text
  pub agora : D
  pub now : ℕ

module _ {U D : Type 0} (b : Banco U) (json : JsonValue) (l : Leitores U b json) (argon : Argon2)
    (formats : Formats U D (AuditLogPayload U json.J))
    (xadd : Text → ℕ → List (Text × Text) → b.W → (Text ⊎ Text) × b.W) where
  open b use {W}

  -- The routes of `main`.
  unfoldable pub rotear : Metodo → Sorteio U D → Envelope → W → Envelope × W
  rotear get_thread s = handler_get_thread b json l s.now
  rotear persist_message s = handler_persist_message b json l s.now
  rotear verify_credentials s =
      handler_verify_credentials b json l argon formats xadd s.id s.agora s.now
  rotear upsert_contact s = handler_upsert_contact b json l s.now
  rotear list_atendimentos s = handler_list_atendimentos b json l s.now
  rotear create_tenant s = handler_create_tenant b json l s.id s.api_key s.now

  -- Whatever the payload of a request without an error part and whatever the database and the bus do,
  -- each of the six methods answers: with a reply or an error that belongs to the request and, when it
  -- is an error, carries its trace.
  pub postgres_answers :
      (m : Metodo) (s : Sorteio U D) (env : Envelope) (w : W)
      → env.error ≡ none
      → Answered svc (nome m) env (rotear m s env w).0
  unfolding rotear handler_get_thread handler_upsert_contact handler_list_atendimentos
      handler_create_tenant
  postgres_answers get_thread s env w h =
      conclude-Answered svc (txt "GetThread") env _ _ _
        (λ a. reply-Answered svc (txt "GetThread") _ env)
        (falha-Answered (txt "GetThread") s.now env)
  postgres_answers persist_message s env w h = persist-Answered b json l s.now env w
  postgres_answers verify_credentials s env w h =
      verify-Answered b json l argon formats xadd s.id s.agora s.now env w
  postgres_answers upsert_contact s env w h =
      conclude-Answered svc (txt "UpsertContact") env _ _ _ (λ a. contact-Answered _ env h)
        (falha-Answered (txt "UpsertContact") s.now env)
  postgres_answers list_atendimentos s env w h =
      conclude-Answered svc (txt "ListAtendimentos") env _ _ _
        (λ a. reply-Answered svc (txt "ListAtendimentos") _ env)
        (falha-Answered (txt "ListAtendimentos") s.now env)
  postgres_answers create_tenant s env w h =
      conclude-Answered svc (txt "CreateTenant") env _ _ _
        (λ a. reply-Answered svc (txt "CreateTenant") _ env)
        (falha-Answered (txt "CreateTenant") s.now env)
