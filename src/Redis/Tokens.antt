-- ===== src/Redis/Tokens.antt =====
-- infrastructure_redis/src/auth_tokens.rs: refresh tokens with rotation and detection of reuse, and
-- the blocklist of access tokens. `U` is the type of `Uuid`, `I` that of `i32`.
use smart_core_assistant_v.Prelude.{
  ℕ, ◌-◌, ◌^◌, Bool, true, false, Option, none, some, List, [], ◌∷◌, ◌⊎◌, Text, txt, ltb,
  if◌then◌else◌,
}
use smart_core_assistant_v.Redis.Server.{RedisServer, I64, nonneg, neg}
use smart_core_assistant_v.Redis.Keys.{chave_refresh, chave_refresh_familia, chave_blocklist}
use smart_core_assistant_v.Redis.Errors.{RedisError}
use smart_core_assistant_v.Redis.Exec.{Exec, command, serde, pure, raise, ◌>>=◌, ◌>>◌}

pub record RegistroRefresh (U I : Type 0) : Type 0 where
  pub user_id : I
  pub tenant_id : Option U
  pub family_id : Text
  pub rotacionado : Bool

-- `serde_json::to_string` and `from_str` at one type; the left side is the error's text.
pub record Serde (A : Type 0) : Type 0 where
  pub to_string : A → Text ⊎ Text
  pub from_str : Text → Text ⊎ A

-- The record that `armazenar` writes.
abbrev pub novo_registro : {U I : Type 0} → I → Option U → Text → RegistroRefresh U I
novo_registro user_id tenant_id family_id = record {
  user_id = user_id;
  tenant_id = tenant_id;
  family_id = family_id;
  rotacionado = false;
}

-- `ttl as i64`, for a `u64`
abbrev pub as_i64 : ℕ → I64
as_i64 n = if ltb n (2 ^ 63) then nonneg n else neg (2 ^ 64 - n)

module _ {U I : Type 0} (r : RedisServer) (json : Serde (RegistroRefresh U I)) where
  open r use {Db}

  unfoldable pub armazenar : Text → I → Option U → Text → ℕ → Exec Db (Unit {0})
  armazenar token_hash user_id tenant_id family_id ttl_segundos = do
    valor ← serde (json.to_string (novo_registro user_id tenant_id family_id))
    command (r.set_ex (chave_refresh token_hash) valor ttl_segundos)
    let chave_fam = chave_refresh_familia family_id
    command (r.sadd chave_fam token_hash)
    command (r.expire chave_fam (as_i64 ttl_segundos))
    pure tt

  unfoldable pub revogar : Text → Exec Db (Unit {0})
  revogar token_hash = do command (r.del (chave_refresh token_hash)); pure tt

  -- The loop of `revogar_familia`.
  unfoldable pub apagar : List Text → Exec Db (Unit {0})
  apagar [] = pure tt
  apagar (hash ∷ membros) = command (r.del (chave_refresh hash)) >> apagar membros

  unfoldable pub revogar_familia : Text → Exec Db (Unit {0})
  revogar_familia family_id = do
    membros ← command (r.smembers (chave_refresh_familia family_id))
    apagar membros
    command (r.del (chave_refresh_familia family_id))
    pure tt

  abbrev pub decodificar : Option Text → Exec Db (RegistroRefresh U I)
  decodificar none = raise RedisError.not_found
  decodificar (some serializado) = serde (json.from_str serializado)

  -- The first half of `validar_e_rotacionar`: the GET and what follows from its answer.
  unfoldable pub ler : Text → Exec Db (RegistroRefresh U I)
  ler token_hash = do valor ← command (r.get (chave_refresh token_hash)); decodificar valor

  -- `SET … KEEPTTL` of the record marked as rotated.
  unfoldable pub marcar : Text → RegistroRefresh U I → Exec Db (RegistroRefresh U I)
  marcar token_hash registro = do
    valor_atualizado ← serde (json.to_string (record registro { rotacionado = true }))
    command (r.set_keepttl (chave_refresh token_hash) valor_atualizado)
    pure registro

  -- The `if registro.rotacionado`.
  unfoldable pub por_uso : Bool → Text → RegistroRefresh U I → Exec Db (RegistroRefresh U I)
  por_uso true token_hash registro =
      revogar_familia registro.family_id >> raise RedisError.token_reuse
  por_uso false token_hash registro = marcar token_hash registro

  -- The second half: what is done with the record that the GET found.
  unfoldable pub rotacionar : Text → RegistroRefresh U I → Exec Db (RegistroRefresh U I)
  rotacionar token_hash registro = por_uso registro.rotacionado token_hash registro

  unfoldable pub validar_e_rotacionar : Text → Exec Db (RegistroRefresh U I)
  validar_e_rotacionar token_hash = do registro ← ler token_hash; rotacionar token_hash registro

module _ (r : RedisServer) where
  open r use {Db}

  unfoldable pub bloquear : Text → ℕ → Exec Db (Unit {0})
  bloquear jti ttl_segundos = do
    command (r.set_ex (chave_blocklist jti) (txt "1") ttl_segundos)
    pure tt

  unfoldable pub esta_bloqueado : Text → Exec Db Bool
  esta_bloqueado jti = command (r.exists (chave_blocklist jti))
