-- ===== src/Services/Login.antt =====
-- crates/application/src/auth/login.rs, and handler_login of apps/runtime_api/src/main.rs.
use smart_core_assistant_v.Prelude.{
  ℕ, Option, none, some, List, [], ◌∷◌, ◌++◌, Text, txt, ◌==◌, if◌then◌else◌,
}
use smart_core_assistant_v.Prelude.Steps.{Step, pure, raise, map_err, ◌>>=◌, ◌>>◌}
use smart_core_assistant_v.Contracts.{Envelope, ErrorEnvelope, MessageKind, kind_number}
use smart_core_assistant_v.ErrorCore.App.{AppError}
use smart_core_assistant_v.ErrorCore.Bridge.{from_envelope}
use smart_core_assistant_v.Service.{reply, refuse, conclude}
use smart_core_assistant_v.Redis.Server.{I64, nonneg}
use smart_core_assistant_v.DataRedis.Json.{as_i32}
use smart_core_assistant_v.Json.{JsonValue, unwrap_or, str_field, i64_field, body}
use smart_core_assistant_v.Services.Rpc.{Rpc, Agora, pedido}

-- crates/application/src/lib.rs
pub record RequestContext (U : Type 0) : Type 0 where
  pub tenant_id : U
  pub user_id : I64
  pub user_scopes : List Text
  pub traceparent : Text

-- What the login draws: the two requests and the three `Uuid::new_v4`, printed.
pub record Tokens : Type 0 where
  pub verify : Agora
  pub store : Agora
  pub access_token : Text
  pub refresh_token : Text
  pub family_id : Text

module _ {U : Type 0} (json : JsonValue) (rpc : Rpc) (show_uuid : U → Text)
    (from_slice_error : List ℕ → Text) where
  open rpc use {W}
  open json use {J}

  unfoldable pub pedido_credenciais : Tokens → RequestContext U → Text → Text → Envelope
  pedido_credenciais t ctx email password =
      pedido t.verify (show_uuid ctx.tenant_id) [] ctx.traceparent (txt "VerifyCredentials") (
        json.to_vec (
          json.object
            ((txt "email", json.string email) ∷ (txt "password", json.string password) ∷ [])))

  abbrev pub token_hash : Tokens → Text
  token_hash t = txt "hash_" ++ t.refresh_token

  unfoldable pub pedido_refresh : Tokens → RequestContext U → Envelope → I64 → Envelope
  pedido_refresh t ctx resp user_id =
      pedido t.store (show_uuid ctx.tenant_id) resp.message_id ctx.traceparent
        (txt "StoreRefreshToken")
        (json.to_vec (
          json.object (
            (txt "token_hash", json.string (token_hash t))
            ∷ (txt "user_id", json.integer user_id)
            ∷ (txt "family_id", json.string t.family_id)
            ∷ (txt "ttl", json.integer (nonneg 86400))
            ∷ [])))

  -- An answer of the kind of an error is turned back into the error it carries.
  abbrev pub erro_de : AppError → Option ErrorEnvelope → AppError
  erro_de desconhecido none = desconhecido
  erro_de desconhecido (some e) = from_envelope e

  abbrev pub aceita : AppError → Envelope → Step W AppError (Unit {0})
  aceita desconhecido resp =
      if resp.kind == kind_number MessageKind.error
      then raise (erro_de desconhecido resp.error)
      else pure tt

  abbrev pub info_de : Envelope → Option J → Step W AppError J
  info_de resp none = raise (
      AppError.internal
        (txt "Erro ao desserializar resposta de credenciais: " ++ from_slice_error resp.payload))
  info_de resp (some j) = pure j

  abbrev pub user_info : Envelope → Step W AppError J
  user_info resp = info_de resp (json.from_slice resp.payload)

  abbrev pub user_id_de : J → I64
  user_id_de j = as_i32 (unwrap_or (nonneg 0) (i64_field json (txt "id") j))

  abbrev pub tokens_json : Tokens → J
  tokens_json t = json.object (
      (txt "access_token", json.string t.access_token)
      ∷ (txt "refresh_token", json.string t.refresh_token)
      ∷ [])

  abbrev pub verificar : Tokens → RequestContext U → Text → Text → Step W AppError Envelope
  verificar t ctx email password =
      map_err (λ e. AppError.database (txt "Falha ao conectar no data_postgres: " ++ rpc.display e))
        (rpc.conectar (txt "data_postgres"))
      >> map_err
          (λ e. AppError.database (txt "Erro na chamada RPC VerifyCredentials: " ++ rpc.debug e))
          (rpc.call (txt "data_postgres") (pedido_credenciais t ctx email password))

  abbrev pub guardar : Tokens → RequestContext U → Envelope → I64 → Step W AppError Envelope
  guardar t ctx resp user_id =
      map_err (λ e. AppError.cache (txt "Falha ao conectar no data_redis: " ++ rpc.display e))
        (rpc.conectar (txt "data_redis"))
      >> map_err
          (λ e. AppError.cache (txt "Erro na chamada RPC StoreRefreshToken: " ++ rpc.debug e))
          (rpc.call (txt "data_redis") (pedido_refresh t ctx resp user_id))

  unfoldable pub login : Tokens → RequestContext U → Text → Text → Step W AppError J
  login t ctx email password = do
    resp ← verificar t ctx email password
    aceita (AppError.auth (txt "Erro desconhecido na autenticação")) resp
    info ← user_info resp
    store_resp ← guardar t ctx resp (user_id_de info)
    aceita (AppError.cache (txt "Erro ao salvar refresh token")) store_resp
    pure (tokens_json t)

  module _ (parse_str : Text → Option U) (nil : U) where
    unfoldable pub handler_login : Tokens → ℕ → Envelope → W → Envelope × W
    handler_login t now env w =
        let j = body json env.payload in
        let ctx : RequestContext U = record {
          tenant_id = unwrap_or nil (parse_str env.tenant_id);
          user_id = nonneg 0;
          user_scopes = [];
          traceparent = env.traceparent;
        } in
        conclude (λ tokens. reply (txt "Login") (json.to_vec tokens) env)
          (λ e. refuse (txt "Login") (txt "runtime_api") now e env)
          (login t ctx (unwrap_or [] (str_field json (txt "email") j))
            (unwrap_or [] (str_field json (txt "password") j)) w)
