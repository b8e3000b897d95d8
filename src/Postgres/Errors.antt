-- ===== src/Postgres/Errors.antt =====
-- infrastructure_postgres/src/errors.rs: `DbError`, its code, and its conversion to `AppError`.
use smart_core_assistant_v.Prelude.{
  Bool, false, Option, none, some, ◌++◌, Text, txt, text_eq, starts_with, if◌then◌else◌,
}
use smart_core_assistant_v.ErrorCore.Code.{ErrorCode}
use smart_core_assistant_v.ErrorCore.App.{AppError}

-- What the code reads of a `sqlx::Error`: its variant, for a database error the SQLSTATE and the
-- message, and the printed text.
pub data SqlxKind : Type 0 where
  row_not_found pool_timed_out pool_closed io other : SqlxKind
  database : Option Text → Text → SqlxKind

pub record SqlxError : Type 0 where
  pub kind : SqlxKind
  pub text : Text

-- The argument of `migrate_error` is the printed text of the `MigrateError`.
pub data DbError : Type 0 where
  sqlx_error : SqlxError → DbError
  migrate_error : Text → DbError
  permission_denied not_found : DbError
  unique_violation crypto_error config_error : Text → DbError

-- The `#[error("…")]` attributes: `to_string()`.
unfoldable pub display : DbError → Text
display (DbError.sqlx_error e) = txt "erro do banco de dados: " ++ e.text
display (DbError.migrate_error s) = txt "erro de migração: " ++ s
display DbError.permission_denied = txt "permissão negada para a operação solicitada"
display DbError.not_found = txt "registro não encontrado"
display (DbError.unique_violation s) = txt "violação de restrição de unicidade: " ++ s
display (DbError.crypto_error s) = txt "erro de criptografia: " ++ s
display (DbError.config_error s) = txt "erro de configuração: " ++ s

abbrev pub is_unique : Option Text → Bool
is_unique none = false
is_unique (some sqlstate) = text_eq sqlstate (txt "23505")

abbrev pub is_integrity : Option Text → Bool
is_integrity none = false
is_integrity (some sqlstate) = starts_with (txt "23") sqlstate

-- `from_sqlx_unique`, on the variant and then on the SQLSTATE.
abbrev pub from_kind : SqlxKind → SqlxError → DbError
from_kind (SqlxKind.database sqlstate message) e =
    if is_unique sqlstate then DbError.unique_violation message else DbError.sqlx_error e
from_kind _ e = DbError.sqlx_error e

unfoldable pub from_sqlx_unique : SqlxError → DbError
from_sqlx_unique e = from_kind e.kind e

unfoldable pub classificar_sqlx : SqlxKind → ErrorCode
classificar_sqlx SqlxKind.row_not_found = ErrorCode.db_record_not_found
classificar_sqlx SqlxKind.pool_timed_out = ErrorCode.db_connection_failed
classificar_sqlx SqlxKind.pool_closed = ErrorCode.db_connection_failed
classificar_sqlx SqlxKind.io = ErrorCode.db_connection_failed
classificar_sqlx SqlxKind.other = ErrorCode.db_query_failed
classificar_sqlx (SqlxKind.database sqlstate message) =
    if is_integrity sqlstate then ErrorCode.db_constraint_violation else ErrorCode.db_query_failed

unfoldable pub code : DbError → ErrorCode
unfolding classificar_sqlx
code (DbError.sqlx_error e) = classificar_sqlx e.kind
code (DbError.migrate_error s) = ErrorCode.db_query_failed
code DbError.permission_denied = ErrorCode.auth_insufficient_scope
code DbError.not_found = ErrorCode.db_record_not_found
code (DbError.unique_violation s) = ErrorCode.db_constraint_violation
code (DbError.crypto_error s) = ErrorCode.internal_error
code (DbError.config_error s) = ErrorCode.internal_error

abbrev pub by_code : ErrorCode → Text → AppError
by_code ErrorCode.db_record_not_found err = AppError.database (txt "registro não encontrado")
by_code ErrorCode.db_connection_failed err = AppError.database (txt "falha de conexão: " ++ err)
by_code ErrorCode.db_constraint_violation err =
    AppError.database (txt "violação de constraint: " ++ err)
by_code ErrorCode.auth_insufficient_scope err =
    AppError.auth (txt "permissão negada para a operação solicitada")
by_code ErrorCode.internal_error err = AppError.internal err
by_code _ err = AppError.database err

-- `impl From<DbError> for AppError`
unfoldable pub to_app_error : DbError → AppError
to_app_error err = by_code (code err) (display err)
