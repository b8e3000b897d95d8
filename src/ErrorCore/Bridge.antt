-- ===== src/ErrorCore/Bridge.antt =====
-- error_core/src/envelope_bridge.rs: `AppError` to and from the error envelope of the contract.
use smart_core_assistant_v.Prelude.{
  ℕ, ◌+◌, ◌&&◌, [], ◌∷◌, ◌++◌, map, Text, txt, text_eq, leb, ◌==◌, if◌then◌else◌,
}
use smart_core_assistant_v.Contracts.{
  ErrorEnvelope, ProtoCategory, ProtoSeverity, category_number, severity_number,
}
use smart_core_assistant_v.ErrorCore.Code.{ErrorCategory, category, display_code}
use smart_core_assistant_v.ErrorCore.App.{
  AppError, Severity, display, code, severity, retryable, public_message,
}

-- `to_lowercase()` on one character of a code, all of which are ASCII, and `replace('_', '.')`.
abbrev pub key_char : ℕ → ℕ
key_char c = if leb b'A' c && leb c b'Z' then c + 32 else if c == b'_' then b'.' else c

unfoldable pub i18n_key : AppError → Text
i18n_key e = txt "errors." ++ map key_char (display_code (code e))

abbrev pub proto_category : ErrorCategory → ProtoCategory
proto_category ErrorCategory.validation = ProtoCategory.validation
proto_category ErrorCategory.auth = ProtoCategory.auth
proto_category ErrorCategory.permission = ProtoCategory.permission
proto_category ErrorCategory.conflict = ProtoCategory.conflict
proto_category ErrorCategory.not_found = ProtoCategory.not_found
proto_category ErrorCategory.rate_limit = ProtoCategory.rate_limit
proto_category ErrorCategory.timeout = ProtoCategory.timeout
proto_category ErrorCategory.dependency = ProtoCategory.dependency
proto_category ErrorCategory.internal = ProtoCategory.internal
proto_category ErrorCategory.storage = ProtoCategory.not_found
proto_category ErrorCategory.database = ProtoCategory.internal
proto_category ErrorCategory.cache = ProtoCategory.internal

abbrev pub proto_severity : Severity → ProtoSeverity
proto_severity Severity.warn = ProtoSeverity.warning
proto_severity Severity.error = ProtoSeverity.error

-- `now` is the value of `Utc::now().timestamp_millis()`.
unfoldable pub to_error_envelope : ℕ → AppError → Text → Text → ErrorEnvelope
to_error_envelope now e trace_id source_svc = record {
  code = display_code (code e);
  category = category_number (proto_category (category (code e)));
  severity = severity_number (proto_severity (severity e));
  message = display e;
  user_message = i18n_key e;
  user_message_fallback = public_message e;
  retryable = retryable e;
  trace_id = trace_id;
  source_svc = source_svc;
  details = (record { key = txt "original_error"; value = display e }) ∷ [];
  occurred_at = now;
}

-- The `match` of `from_envelope` on the code's text.
abbrev pub variant_of : Text → Text → AppError
variant_of name =
    if text_eq name (txt "AUTH_INVALID_TOKEN")
    then AppError.auth
    else if text_eq name (txt "AUTH_EXPIRED_TOKEN")
    then AppError.auth
    else if text_eq name (txt "AUTH_MISSING_TOKEN")
    then AppError.auth
    else if text_eq name (txt "AUTH_INSUFFICIENT_SCOPE")
    then AppError.auth
    else if text_eq name (txt "STORAGE_NOT_FOUND")
    then AppError.storage
    else if text_eq name (txt "STORAGE_UPLOAD_FAILED")
    then AppError.storage
    else if text_eq name (txt "STORAGE_DELETE_FAILED")
    then AppError.storage
    else if text_eq name (txt "DB_CONNECTION_FAILED")
    then AppError.database
    else if text_eq name (txt "DB_RECORD_NOT_FOUND")
    then AppError.database
    else if text_eq name (txt "DB_CONSTRAINT_VIOLATION")
    then AppError.database
    else if text_eq name (txt "DB_QUERY_FAILED")
    then AppError.database
    else if text_eq name (txt "CACHE_UNAVAILABLE")
    then AppError.cache
    else if text_eq name (txt "CACHE_KEY_NOT_FOUND")
    then AppError.cache
    else if text_eq name (txt "VALIDATION_FAILED")
    then AppError.validation
    else if text_eq name (txt "CONFLICT")
    then AppError.conflict
    else if text_eq name (txt "RATE_LIMIT_EXCEEDED")
    then AppError.rate_limit
    else AppError.internal

unfoldable pub from_envelope : ErrorEnvelope → AppError
from_envelope env = variant_of env.code env.message
