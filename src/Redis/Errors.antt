-- ===== src/Redis/Errors.antt =====
-- infrastructure_redis/src/errors.rs: `RedisError`, its code, and its conversion to `AppError`.
use smart_core_assistant_v.Prelude.{Bool, ◌||◌, ◌++◌, Text, txt, if◌then◌else◌}
use smart_core_assistant_v.ErrorCore.Code.{ErrorCode}
use smart_core_assistant_v.ErrorCore.App.{AppError}
use smart_core_assistant_v.Redis.Server.{Fault}

pub data RedisError : Type 0 where
  redis : Fault → RedisError
  serde : Text → RedisError
  config_error : Text → RedisError
  not_found : RedisError
  token_reuse : RedisError

-- The `#[error("…")]` attributes: `to_string()`.
unfoldable pub display : RedisError → Text
display (RedisError.redis e) = txt "erro do redis: " ++ e.text
display (RedisError.serde s) = txt "erro de serialização: " ++ s
display (RedisError.config_error s) = txt "erro de configuração: " ++ s
display RedisError.not_found = txt "registro não encontrado"
display RedisError.token_reuse = txt "reuso de refresh token detectado — família revogada"

abbrev pub is_unavailable : Fault → Bool
is_unavailable e = e.connection_refusal || (e.connection_dropped || (e.timeout || e.io_error))

unfoldable pub code : RedisError → ErrorCode
code (RedisError.redis e) =
    if is_unavailable e then ErrorCode.cache_unavailable else ErrorCode.cache_key_not_found
code RedisError.not_found = ErrorCode.cache_key_not_found
code (RedisError.serde s) = ErrorCode.internal_error
code (RedisError.config_error s) = ErrorCode.internal_error
code RedisError.token_reuse = ErrorCode.auth_invalid_token

abbrev pub by_code : ErrorCode → Text → AppError
by_code ErrorCode.cache_unavailable err = AppError.cache (txt "cache indisponível: " ++ err)
by_code ErrorCode.cache_key_not_found err = AppError.cache err
by_code ErrorCode.auth_invalid_token err = AppError.auth err
by_code _ err = AppError.internal err

-- `impl From<RedisError> for AppError`
unfoldable pub to_app_error : RedisError → AppError
to_app_error err = by_code (code err) (display err)
