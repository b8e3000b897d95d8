-- ===== src/DataRedis/Replies.antt =====
-- What a caller of data_redis (apps/data_redis/src/main.rs) gets back.
use smart_core_assistant_v.Prelude.{
  ℕ, ◌≡◌, refl, sym, ap, false, Option, none, some, List, ◌++◌, ◌⊎◌, inl, inr, Text, txt, arith,
}
use smart_core_assistant_v.Contracts.{Envelope, ErrorEnvelope}
use smart_core_assistant_v.ErrorCore.Code.{ErrorCode, display_code}
use smart_core_assistant_v.ErrorCore.App
use smart_core_assistant_v.ErrorCore.App.{AppError, says_unavailable, is_retryable, retryable}
use smart_core_assistant_v.ErrorCore.Bridge.{to_error_envelope}
use smart_core_assistant_v.Redis.Server.{RedisServer, RedisLaws, I64}
use smart_core_assistant_v.Redis.Errors
use smart_core_assistant_v.Redis.Errors.{RedisError, to_app_error}
use smart_core_assistant_v.Redis.Exec.{Result, ok, err}
use smart_core_assistant_v.Redis.Tokens.{
  RegistroRefresh, Serde, armazenar, validar_e_rotacionar, revogar_familia, bloquear,
  esta_bloqueado,
}
use smart_core_assistant_v.Redis.Cache.{definir_flow_permissions, obter_flow_permissions}
use smart_core_assistant_v.Redis.Records.{SerdeLaws, Guarda}
use smart_core_assistant_v.Redis.Rotation.{rotacionado_de, validar_e_rotacionar-ok}
use smart_core_assistant_v.DataRedis.Json.{Json}
use smart_core_assistant_v.DataRedis.Handlers.{
  Metodo, nome, resposta, falha, concluir, permissoes, token_hash_de, rotear, handler_get_cache,
  handler_set_cache, handler_store_refresh_token, handler_validate_and_rotate,
  handler_revoke_family, handler_block_token, handler_is_token_blocked,
}

-- The envelope is a reply without an error or an error envelope of this service with the caller's
-- trace; it belongs to the request, and names the method.
abbrev pub Answers : Metodo → Envelope → Envelope → Type 0
Answers m env out =
    (out.tenant_id ≡ env.tenant_id)
    × (out.message_id ≡ env.message_id)
    × (out.traceparent ≡ env.traceparent)
    × (out.method ≡ nome m ++ txt "Reply")
    × (((out.kind ≡ 3) × (out.error ≡ none))
        ⊎ ((e : ErrorEnvelope) × (out.kind ≡ 5)
            × (out.error ≡ some e)
            × (e.trace_id ≡ env.traceparent)
            × (e.source_svc ≡ txt "data_redis")))

resposta-Answers :
    (m : Metodo) (payload : List ℕ) (env : Envelope) → Answers m env (resposta m payload env)
unfolding resposta
resposta-Answers m payload env = (refl, refl, refl, refl, inl (refl, refl))

falha-Answers :
    (m : Metodo) (now : ℕ) (t : Text) (env : Envelope) → Answers m env (falha m now t env)
unfolding falha to_error_envelope
falha-Answers m now t env = (refl, refl, refl, refl, inr (_, refl, refl, refl, refl))

concluir-Answers {ℓ} :
    {A : Type ℓ} {Db : Type 0} (m : Metodo) (now : ℕ) (env : Envelope) (answer : A → Envelope)
    (x : Result A × Db)
    → ((a : A) → Answers m env (answer a))
    → Answers m env (concluir m now env answer x).0
concluir-Answers m now env answer (ok a, db) h = h a
concluir-Answers m now env answer (err e, db) h = falha-Answers m now (Errors.display e) env

module _ {U : Type 0} (r : RedisServer) (registros : Serde (RegistroRefresh U I64))
    (listas : Serde (List I64)) (json : Json U) (show_uuid : U → Text) (show_i32 : I64 → Text) where
  open r use {Db}

  permissoes-Answers :
      (now : ℕ) (env : Envelope) (o : Option (List I64))
      → Answers Metodo.get_cache env
          (permissoes r registros listas json show_uuid show_i32 now env o)
  permissoes-Answers now env none = falha-Answers Metodo.get_cache now _ env
  permissoes-Answers now env (some val) = resposta-Answers Metodo.get_cache _ env

  -- Whatever the payload of a request and whatever the Redis server does, each of the seven methods
  -- answers: a reply or an error that belongs to the request and carries its trace.
  pub rotear-Answers :
      (m : Metodo) (now : ℕ) (env : Envelope) (db : Db)
      → Answers m env (rotear r registros listas json show_uuid show_i32 m now env db).0
  unfolding rotear handler_get_cache handler_set_cache handler_store_refresh_token
      handler_validate_and_rotate handler_revoke_family handler_block_token handler_is_token_blocked
  rotear-Answers Metodo.get_cache now env db =
      concluir-Answers Metodo.get_cache now env _
        (obter_flow_permissions r listas show_uuid show_i32 _ _ db) (permissoes-Answers now env)
  rotear-Answers Metodo.set_cache now env db =
      concluir-Answers Metodo.set_cache now env _
        (definir_flow_permissions r listas show_uuid show_i32 _ _ _ _ db)
        (λ _. resposta-Answers Metodo.set_cache _ env)
  rotear-Answers Metodo.store_refresh_token now env db =
      concluir-Answers Metodo.store_refresh_token now env _ (armazenar r registros _ _ _ _ _ db)
        (λ _. resposta-Answers Metodo.store_refresh_token _ env)
  rotear-Answers Metodo.validate_and_rotate now env db =
      concluir-Answers Metodo.validate_and_rotate now env _ (validar_e_rotacionar r registros _ db)
        (λ _. resposta-Answers Metodo.validate_and_rotate _ env)
  rotear-Answers Metodo.revoke_family now env db =
      concluir-Answers Metodo.revoke_family now env _ (revogar_familia r registros _ db)
        (λ _. resposta-Answers Metodo.revoke_family _ env)
  rotear-Answers Metodo.block_token now env db =
      concluir-Answers Metodo.block_token now env _ (bloquear r _ _ db)
        (λ _. resposta-Answers Metodo.block_token _ env)
  rotear-Answers Metodo.is_token_blocked now env db =
      concluir-Answers Metodo.is_token_blocked now env _ (esta_bloqueado r _ db)
        (λ _. resposta-Answers Metodo.is_token_blocked _ env)

  -- A call of ValidateAndRotate that meets the reuse of a token is answered with the code of a key
  -- that is missing from the cache, not retryable, as a call with an unknown token is; the code of
  -- the error itself, and of the AppError made from it, is that of an invalid token.
  pub reuse_answered_as_missing :
      (now : ℕ) (env : Envelope) (a b : Db)
      → validar_e_rotacionar r registros
          (token_hash_de r registros listas json show_uuid show_i32 env)
          a
        ≡ (err RedisError.token_reuse, b)
      → ((e : ErrorEnvelope) × ((rotear r registros listas json show_uuid show_i32
              Metodo.validate_and_rotate now env a).0.error
            ≡ some e)
          × (e.code ≡ display_code ErrorCode.cache_key_not_found)
          × (e.retryable ≡ false))
        × (App.code (to_app_error RedisError.token_reuse) ≡ ErrorCode.auth_invalid_token)
  unfolding rotear handler_validate_and_rotate falha to_error_envelope App.code retryable
      Errors.display to_app_error Errors.code
  reuse_answered_as_missing now env a b met = (
    (
      to_error_envelope now (AppError.cache (Errors.display RedisError.token_reuse)) env.traceparent
          (txt "data_redis"),
      ap
          (λ x.
            (concluir Metodo.validate_and_rotate now env
              (λ reg. resposta Metodo.validate_and_rotate (json.to_vec (json.to_value reg)) env)
              x).0.error)
          met,
      refl,
      refl,
    ),
    refl,
  )

  reply_of_ok :
      (now : ℕ) (env out : Envelope) (x : Result (RegistroRefresh U I64) × Db) (b : Db)
      → concluir Metodo.validate_and_rotate now env
          (λ reg. resposta Metodo.validate_and_rotate (json.to_vec (json.to_value reg)) env)
          x
        ≡ (out, b)
      → out.kind ≡ 3
      → (reg : RegistroRefresh U I64) × (x ≡ (ok reg, b))
        × (out.payload ≡ json.to_vec (json.to_value reg))
  unfolding falha resposta
  reply_of_ok now env out (ok reg, db) b h k =
      (reg, ap (λ p. (ok reg, p.1)) h, sym (ap (λ (p : Envelope × Db). p.0.payload) h))
  reply_of_ok now env out (err e, db) b h k =
      let kind : 5 ≡ out.kind = ap (λ (p : Envelope × Db). p.0.kind) h in absurd (omega arith)

  -- A reply to ValidateAndRotate, as against an error, carries the record of the token that the
  -- request names; that record was stored and not yet rotated, and is stored as rotated after it.
  pub reply_means_rotated :
      (laws : RedisLaws r) (serde_laws : SerdeLaws registros) (now : ℕ) (env out : Envelope)
      (a b : Db)
      → rotear r registros listas json show_uuid show_i32 Metodo.validate_and_rotate now env a
        ≡ (out, b)
      → out.kind ≡ 3
      → let hash : Text = token_hash_de r registros listas json show_uuid show_i32 env in
        (reg : RegistroRefresh U I64) × (out.payload ≡ json.to_vec (json.to_value reg))
        × Guarda r registros a hash reg
        × (reg.rotacionado ≡ false)
        × Guarda r registros b hash (rotacionado_de reg)
  unfolding rotear handler_validate_and_rotate
  reply_means_rotated laws serde_laws now env out a b e k =
      let hash = token_hash_de r registros listas json show_uuid show_i32 env in
      let (reg, ran, sent) =
        reply_of_ok now env out (validar_e_rotacionar r registros hash a) b e k in
      let (stored, fresh, marked, _, _) =
        validar_e_rotacionar-ok r registros laws serde_laws hash a b reg ran in
      (reg, sent, stored, fresh, marked)
