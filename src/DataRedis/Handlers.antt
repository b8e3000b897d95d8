-- ===== src/DataRedis/Handlers.antt =====
-- The handlers of apps/data_redis/src/main.rs. `now` is the time that the error envelope shows.
use smart_core_assistant_v.Prelude.{ℕ, Option, none, some, List, [], ◌++◌, Text, txt}
use smart_core_assistant_v.Contracts.{Envelope, MessageKind, kind_number}
use smart_core_assistant_v.ErrorCore.App.{AppError}
use smart_core_assistant_v.ErrorCore.Bridge.{to_error_envelope}
use smart_core_assistant_v.Redis.Server.{RedisServer, I64}
use smart_core_assistant_v.Redis.Errors
use smart_core_assistant_v.Redis.Exec.{Result, ok, err}
use smart_core_assistant_v.Redis.Tokens.{
  RegistroRefresh, Serde, armazenar, validar_e_rotacionar, revogar_familia, bloquear,
  esta_bloqueado,
}
use smart_core_assistant_v.Redis.Cache.{definir_flow_permissions, obter_flow_permissions}
use smart_core_assistant_v.DataRedis.Json.{
  Json, unwrap_or, and_then, inteiros, corpo, texto, inteiro, natural,
}

-- The methods that `main` routes.
pub data Metodo : Type 0 where
  get_cache set_cache store_refresh_token validate_and_rotate : Metodo
  revoke_family block_token is_token_blocked : Metodo

-- Their names.
abbrev pub nome : Metodo → Text
nome get_cache = txt "GetCache"
nome set_cache = txt "SetCache"
nome store_refresh_token = txt "StoreRefreshToken"
nome validate_and_rotate = txt "ValidateAndRotate"
nome revoke_family = txt "RevokeFamily"
nome block_token = txt "BlockToken"
nome is_token_blocked = txt "IsTokenBlocked"

unfoldable pub resposta : Metodo → List ℕ → Envelope → Envelope
resposta m payload env = record env {
  kind = kind_number MessageKind.reply;
  method = nome m ++ txt "Reply";
  payload = payload;
  error = none;
}

-- The payload of an error is that of the request.
unfoldable pub falha : Metodo → ℕ → Text → Envelope → Envelope
falha m now texto env = record env {
  kind = kind_number MessageKind.error;
  method = nome m ++ txt "Reply";
  error = some (to_error_envelope now (AppError.cache texto) env.traceparent (txt "data_redis"));
}

-- The `match` on what the store answered.
abbrev pub concluir {ℓ} :
    {A : Type ℓ} {Db : Type 0}
    → Metodo
    → ℕ
    → Envelope
    → (A → Envelope)
    → Result A × Db
    → Envelope × Db
concluir m now env answer (ok a, db) = (answer a, db)
concluir m now env answer (err e, db) = (falha m now (Errors.display e) env, db)

module _ {U : Type 0} (r : RedisServer) (registros : Serde (RegistroRefresh U I64))
    (listas : Serde (List I64)) (json : Json U) (show_uuid : U → Text) (show_i32 : I64 → Text) where
  open r use {Db}
  open json use {J, object, to_vec}

  abbrev pub success : List ℕ
  success = to_vec (object (txt "status") (json.string (txt "success")))

  abbrev pub permissoes : ℕ → Envelope → Option (List I64) → Envelope
  permissoes now env (some val) =
      resposta get_cache (to_vec (object (txt "permissions") (json.numbers val))) env
  permissoes now env none = falha get_cache now (txt "Chave não encontrada no cache") env

  abbrev pub tenant : Envelope → U
  tenant env = unwrap_or json.nil (json.parse_str env.tenant_id)

  unfoldable pub handler_get_cache : ℕ → Envelope → Db → Envelope × Db
  handler_get_cache now env db =
      let j = corpo json env.payload in
      concluir get_cache now env (permissoes now env) (
        obter_flow_permissions r listas show_uuid show_i32 (tenant env)
          (inteiro json (txt "user_id") j) db)

  unfoldable pub handler_set_cache : ℕ → Envelope → Db → Envelope × Db
  handler_set_cache now env db =
      let j = corpo json env.payload in
      let permissions =
        inteiros json (unwrap_or [] (and_then (json.get (txt "permissions") j) json.as_array)) in
      concluir set_cache now env (λ _. resposta set_cache success env)
        (definir_flow_permissions r listas show_uuid show_i32 (tenant env)
          (inteiro json (txt "user_id") j) permissions (natural json (txt "ttl") 60 j) db)

  unfoldable pub handler_store_refresh_token : ℕ → Envelope → Db → Envelope × Db
  handler_store_refresh_token now env db =
      let j = corpo json env.payload in
      concluir store_refresh_token now env (λ _. resposta store_refresh_token success env)
        (armazenar r registros (texto json (txt "token_hash") j) (inteiro json (txt "user_id") j)
          (json.parse_str env.tenant_id) (texto json (txt "family_id") j)
          (natural json (txt "ttl") 86400 j) db)

  abbrev pub token_hash_de : Envelope → Text
  token_hash_de env = texto json (txt "token_hash") (corpo json env.payload)

  unfoldable pub handler_validate_and_rotate : ℕ → Envelope → Db → Envelope × Db
  handler_validate_and_rotate now env db =
      concluir validate_and_rotate now env
        (λ reg. resposta validate_and_rotate (to_vec (json.to_value reg)) env)
        (validar_e_rotacionar r registros (token_hash_de env) db)

  unfoldable pub handler_revoke_family : ℕ → Envelope → Db → Envelope × Db
  handler_revoke_family now env db =
      let j = corpo json env.payload in
      concluir revoke_family now env (λ _. resposta revoke_family success env)
        (revogar_familia r registros (texto json (txt "family_id") j) db)

  unfoldable pub handler_block_token : ℕ → Envelope → Db → Envelope × Db
  handler_block_token now env db =
      let j = corpo json env.payload in
      concluir block_token now env (λ _. resposta block_token success env)
        (bloquear r (texto json (txt "jti") j) (natural json (txt "ttl") 3600 j) db)

  unfoldable pub handler_is_token_blocked : ℕ → Envelope → Db → Envelope × Db
  handler_is_token_blocked now env db =
      let j = corpo json env.payload in
      concluir is_token_blocked now env
        (λ blocked.
          resposta is_token_blocked (to_vec (object (txt "blocked") (json.boolean blocked))) env)
        (esta_bloqueado r (texto json (txt "jti") j) db)

  -- The routes of `main`.
  unfoldable pub rotear : Metodo → ℕ → Envelope → Db → Envelope × Db
  rotear get_cache = handler_get_cache
  rotear set_cache = handler_set_cache
  rotear store_refresh_token = handler_store_refresh_token
  rotear validate_and_rotate = handler_validate_and_rotate
  rotear revoke_family = handler_revoke_family
  rotear block_token = handler_block_token
  rotear is_token_blocked = handler_is_token_blocked
