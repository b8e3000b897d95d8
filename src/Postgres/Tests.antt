-- ===== src/Postgres/Tests.antt =====
-- The theorem on `DbError` at an error whose text names a connection.
mod Secrets
mod Configs
mod Refusals
use smart_core_assistant_v.Prelude.{◌≡◌, ◌↔◌, false, some, txt}
use smart_core_assistant_v.ErrorCore.App
use smart_core_assistant_v.Postgres.Errors
use smart_core_assistant_v.Postgres.Errors.{SqlxKind, DbError, to_app_error}
use smart_core_assistant_v.Postgres.Coherence.{garbles, detail, db_code-to_app_error_iff}

abbrev lost : DbError
lost = DbError.sqlx_error (record {
  kind = SqlxKind.database (some (txt "57P01")) (txt "terminating connection");
  text = txt "terminating connection due to administrator command";
})

db_code-to_app_error_iff_example :
    (App.code (to_app_error lost) ≡ Errors.code lost)
    ↔ (garbles (Errors.code lost) (detail lost) ≡ false)
db_code-to_app_error_iff_example = db_code-to_app_error_iff lost
