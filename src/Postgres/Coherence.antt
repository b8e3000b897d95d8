-- ===== src/Postgres/Coherence.antt =====
-- Does a `DbError` keep its code when it becomes an `AppError`?
use smart_core_assistant_v.Prelude.{
  ◌≡◌, ◌↔◌, refl, Bool, false, ◌||◌, Bool-cases, inl, inr, arith, Text, if◌then◌else◌,
}
use smart_core_assistant_v.ErrorCore.Code.{ErrorCode}
use smart_core_assistant_v.ErrorCore.App
use smart_core_assistant_v.ErrorCore.App.{
  AppError, says_connection, says_not_found, says_constraint,
}
use smart_core_assistant_v.Postgres.Errors
use smart_core_assistant_v.Postgres.Errors.{
  SqlxKind, SqlxError, DbError, to_app_error, classificar_sqlx, is_integrity,
}

-- The words in the printed error that `AppError::code` would read as another failure.
abbrev pub garbles : ErrorCode → Text → Bool
garbles ErrorCode.db_constraint_violation text = says_connection text || says_not_found text
garbles ErrorCode.db_query_failed text =
    says_connection text || (says_not_found text || says_constraint text)
garbles _ text = false

-- The text that the conversion prints after its own prefix.
abbrev pub detail : DbError → Text
detail (DbError.sqlx_error e) = e.text
detail (DbError.migrate_error s) = s
detail (DbError.unique_violation s) = s
detail _ = Errors.display DbError.not_found

query_iff :
    (a b c : Bool)
    → ((if a
          then ErrorCode.db_connection_failed
          else if b
          then ErrorCode.db_record_not_found
          else if c
          then ErrorCode.db_constraint_violation
          else ErrorCode.db_query_failed)
        ≡ ErrorCode.db_query_failed)
      ↔ ((a || (b || c)) ≡ false)
query_iff a b c = ground arith

constraint_iff :
    (a b : Bool)
    → ((if a
          then ErrorCode.db_connection_failed
          else if b
          then ErrorCode.db_record_not_found
          else ErrorCode.db_constraint_violation)
        ≡ ErrorCode.db_constraint_violation)
      ↔ ((a || b) ≡ false)
constraint_iff a b = ground arith

sqlx_iff :
    (k : SqlxKind) (text : Text)
    → (App.code (
          Errors.by_code
            (classificar_sqlx k)
            (Errors.display (DbError.sqlx_error (record { kind = k; text = text }))))
        ≡ classificar_sqlx k)
      ↔ (garbles (classificar_sqlx k) text ≡ false)
unfolding App.code classificar_sqlx Errors.display
sqlx_iff SqlxKind.row_not_found text = (λ _. refl, λ _. refl)
sqlx_iff SqlxKind.pool_timed_out text = (λ _. refl, λ _. refl)
sqlx_iff SqlxKind.pool_closed text = (λ _. refl, λ _. refl)
sqlx_iff SqlxKind.io text = (λ _. refl, λ _. refl)
sqlx_iff SqlxKind.other text =
    query_iff (says_connection text) (says_not_found text) (says_constraint text)
sqlx_iff (SqlxKind.database sqlstate message) text = elim (Bool-cases (is_integrity sqlstate)) [
  | inl p ↦ rw p (constraint_iff (says_connection text) (says_not_found text))
  | inr p ↦ rw p (query_iff (says_connection text) (says_not_found text) (says_constraint text))
]

-- The `AppError` has the code of the `DbError` it is made from exactly when the text of the
-- underlying error holds no word that is read as another failure: for a constraint violation the
-- words for connections and missing records, for a failed query those for constraints too.
pub db_code-to_app_error_iff :
    (e : DbError)
    → (App.code (to_app_error e) ≡ Errors.code e) ↔ (garbles (Errors.code e) (detail e) ≡ false)
unfolding App.code to_app_error Errors.code Errors.display
db_code-to_app_error_iff (DbError.sqlx_error e) = sqlx_iff e.kind e.text
db_code-to_app_error_iff (DbError.migrate_error s) =
    query_iff (says_connection s) (says_not_found s) (says_constraint s)
db_code-to_app_error_iff DbError.permission_denied = (λ _. refl, λ _. refl)
db_code-to_app_error_iff DbError.not_found = (λ _. refl, λ _. refl)
db_code-to_app_error_iff (DbError.unique_violation s) =
    constraint_iff (says_connection s) (says_not_found s)
db_code-to_app_error_iff (DbError.crypto_error s) = (λ _. refl, λ _. refl)
db_code-to_app_error_iff (DbError.config_error s) = (λ _. refl, λ _. refl)
