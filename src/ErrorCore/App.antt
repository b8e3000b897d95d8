-- ===== src/ErrorCore/App.antt =====
-- error_core/src/error.rs: `AppError`, and what a client or a log may know of it.
use smart_core_assistant_v.Prelude.{
  Bool, true, false, ◌||◌, ◌++◌, Text, txt, contains, if◌then◌else◌,
}
use smart_core_assistant_v.ErrorCore.Code.{ErrorCode}

pub data Severity : Type 0 where
  warn error : Severity

pub data AppError : Type 0 where
  database cache storage auth validation conflict rate_limit internal : Text → AppError

-- The `#[error("…: {0}")]` attributes: `to_string()`.
unfoldable pub display : AppError → Text
display (AppError.database msg) = txt "Erro de banco de dados: " ++ msg
display (AppError.cache msg) = txt "Erro de cache: " ++ msg
display (AppError.storage msg) = txt "Erro de armazenamento: " ++ msg
display (AppError.auth msg) = txt "Erro de autenticação: " ++ msg
display (AppError.validation msg) = txt "Erro de validação: " ++ msg
display (AppError.conflict msg) = txt "Conflito de estado: " ++ msg
display (AppError.rate_limit msg) = txt "Limite de requisições excedido: " ++ msg
display (AppError.internal msg) = txt "Erro interno: " ++ msg

-- The guards of `code`, `severity` and `public_message` on the message.
abbrev pub says_expired : Text → Bool
says_expired msg = contains (txt "expirado") msg || contains (txt "expired") msg

abbrev pub says_missing : Text → Bool
says_missing msg = contains (txt "ausente") msg || contains (txt "missing") msg

abbrev pub says_scope : Text → Bool
says_scope msg = contains (txt "permissão") msg || contains (txt "scope") msg

abbrev pub says_connection : Text → Bool
says_connection msg = contains (txt "conexão") msg || contains (txt "connection") msg

abbrev pub says_not_found : Text → Bool
says_not_found msg = contains (txt "não encontrado") msg || contains (txt "not found") msg

abbrev pub says_constraint : Text → Bool
says_constraint msg = contains (txt "constraint") msg || contains (txt "duplicado") msg

abbrev pub says_unavailable : Text → Bool
says_unavailable msg = contains (txt "indisponível") msg || contains (txt "unavailable") msg

unfoldable pub code : AppError → ErrorCode
code (AppError.auth msg) =
    if says_expired msg
    then ErrorCode.auth_expired_token
    else if says_missing msg
    then ErrorCode.auth_missing_token
    else if says_scope msg
    then ErrorCode.auth_insufficient_scope
    else ErrorCode.auth_invalid_token
code (AppError.database msg) =
    if says_connection msg
    then ErrorCode.db_connection_failed
    else if says_not_found msg
    then ErrorCode.db_record_not_found
    else if says_constraint msg
    then ErrorCode.db_constraint_violation
    else ErrorCode.db_query_failed
code (AppError.cache msg) =
    if says_unavailable msg then ErrorCode.cache_unavailable else ErrorCode.cache_key_not_found
code (AppError.storage msg) =
    if says_not_found msg
    then ErrorCode.storage_not_found
    else if contains (txt "upload") msg
    then ErrorCode.storage_upload_failed
    else ErrorCode.storage_delete_failed
code (AppError.validation msg) = ErrorCode.validation_failed
code (AppError.conflict msg) = ErrorCode.conflict
code (AppError.rate_limit msg) = ErrorCode.rate_limit_exceeded
code (AppError.internal msg) = ErrorCode.internal_error

unfoldable pub severity : AppError → Severity
severity (AppError.auth msg) = Severity.warn
severity (AppError.validation msg) = Severity.warn
severity (AppError.conflict msg) = Severity.warn
severity (AppError.rate_limit msg) = Severity.warn
severity (AppError.storage msg) =
    if contains (txt "não encontrado") msg then Severity.warn else Severity.error
severity (AppError.database msg) =
    if contains (txt "não encontrado") msg then Severity.warn else Severity.error
severity (AppError.cache msg) =
    if contains (txt "não encontrado") msg then Severity.warn else Severity.error
severity (AppError.internal msg) = Severity.error

-- The pattern of `retryable`.
abbrev pub is_retryable : ErrorCode → Bool
is_retryable ErrorCode.db_connection_failed = true
is_retryable ErrorCode.cache_unavailable = true
is_retryable ErrorCode.storage_upload_failed = true
is_retryable ErrorCode.internal_error = true
is_retryable _ = false

unfoldable pub retryable : AppError → Bool
retryable e = is_retryable (code e)

unfoldable pub public_message : AppError → Text
public_message (AppError.auth msg) = txt "Credencial inválida ou ausente."
public_message (AppError.database msg) =
    if says_not_found msg
    then txt "Recurso não encontrado."
    else txt "Erro ao acessar o banco de dados."
public_message (AppError.cache msg) = txt "Erro ao acessar o cache."
public_message (AppError.storage msg) =
    if says_not_found msg
    then txt "Arquivo não encontrado."
    else txt "Erro ao acessar o armazenamento."
public_message (AppError.validation msg) = txt "Dados de entrada inválidos."
public_message (AppError.conflict msg) = txt "Conflito com o estado atual do recurso."
public_message (AppError.rate_limit msg) =
    txt "Limite de requisições excedido. Tente novamente mais tarde."
public_message (AppError.internal msg) = txt "Erro interno do servidor."
