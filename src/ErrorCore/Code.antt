-- ===== src/ErrorCore/Code.antt =====
-- error_core/src/code.rs: error codes, their categories and their printed form.
use smart_core_assistant_v.Prelude.{Text, txt}

pub data ErrorCategory : Type 0 where
  auth storage database cache validation internal permission : ErrorCategory
  rate_limit timeout dependency not_found conflict : ErrorCategory

pub data ErrorCode : Type 0 where
  auth_invalid_token auth_expired_token auth_missing_token auth_insufficient_scope : ErrorCode
  storage_not_found storage_upload_failed storage_delete_failed : ErrorCode
  db_connection_failed db_record_not_found db_constraint_violation db_query_failed : ErrorCode
  cache_unavailable cache_key_not_found : ErrorCode
  validation_failed : ErrorCode
  conflict rate_limit_exceeded : ErrorCode
  internal_error : ErrorCode

unfoldable pub category : ErrorCode → ErrorCategory
category ErrorCode.auth_invalid_token = ErrorCategory.auth
category ErrorCode.auth_expired_token = ErrorCategory.auth
category ErrorCode.auth_missing_token = ErrorCategory.auth
category ErrorCode.auth_insufficient_scope = ErrorCategory.auth
category ErrorCode.storage_not_found = ErrorCategory.storage
category ErrorCode.storage_upload_failed = ErrorCategory.storage
category ErrorCode.storage_delete_failed = ErrorCategory.storage
category ErrorCode.db_connection_failed = ErrorCategory.database
category ErrorCode.db_record_not_found = ErrorCategory.database
category ErrorCode.db_constraint_violation = ErrorCategory.database
category ErrorCode.db_query_failed = ErrorCategory.database
category ErrorCode.cache_unavailable = ErrorCategory.cache
category ErrorCode.cache_key_not_found = ErrorCategory.cache
category ErrorCode.validation_failed = ErrorCategory.validation
category ErrorCode.conflict = ErrorCategory.conflict
category ErrorCode.rate_limit_exceeded = ErrorCategory.rate_limit
category ErrorCode.internal_error = ErrorCategory.internal

-- `impl Display for ErrorCode`
unfoldable pub display_code : ErrorCode → Text
display_code ErrorCode.auth_invalid_token = txt "AUTH_INVALID_TOKEN"
display_code ErrorCode.auth_expired_token = txt "AUTH_EXPIRED_TOKEN"
display_code ErrorCode.auth_missing_token = txt "AUTH_MISSING_TOKEN"
display_code ErrorCode.auth_insufficient_scope = txt "AUTH_INSUFFICIENT_SCOPE"
display_code ErrorCode.storage_not_found = txt "STORAGE_NOT_FOUND"
display_code ErrorCode.storage_upload_failed = txt "STORAGE_UPLOAD_FAILED"
display_code ErrorCode.storage_delete_failed = txt "STORAGE_DELETE_FAILED"
display_code ErrorCode.db_connection_failed = txt "DB_CONNECTION_FAILED"
display_code ErrorCode.db_record_not_found = txt "DB_RECORD_NOT_FOUND"
display_code ErrorCode.db_constraint_violation = txt "DB_CONSTRAINT_VIOLATION"
display_code ErrorCode.db_query_failed = txt "DB_QUERY_FAILED"
display_code ErrorCode.cache_unavailable = txt "CACHE_UNAVAILABLE"
display_code ErrorCode.cache_key_not_found = txt "CACHE_KEY_NOT_FOUND"
display_code ErrorCode.validation_failed = txt "VALIDATION_FAILED"
display_code ErrorCode.conflict = txt "CONFLICT"
display_code ErrorCode.rate_limit_exceeded = txt "RATE_LIMIT_EXCEEDED"
display_code ErrorCode.internal_error = txt "INTERNAL_ERROR"
