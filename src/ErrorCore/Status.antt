-- ===== src/ErrorCore/Status.antt =====
-- error_core/src/transport.rs: `AppError` to a gRPC status. `tonic::Code` and `tonic::Status` are
-- the names and the pair that the code builds.
use smart_core_assistant_v.Prelude.{Text}
use smart_core_assistant_v.ErrorCore.Code.{ErrorCode}
use smart_core_assistant_v.ErrorCore.App.{AppError, code, public_message}

pub data GrpcCode : Type 0 where
  unauthenticated permission_denied not_found internal : GrpcCode
  invalid_argument already_exists resource_exhausted : GrpcCode

pub record Status : Type 0 where
  pub code : GrpcCode
  pub message : Text

abbrev pub grpc_code : ErrorCode → GrpcCode
grpc_code ErrorCode.auth_invalid_token = GrpcCode.unauthenticated
grpc_code ErrorCode.auth_expired_token = GrpcCode.unauthenticated
grpc_code ErrorCode.auth_missing_token = GrpcCode.unauthenticated
grpc_code ErrorCode.auth_insufficient_scope = GrpcCode.permission_denied
grpc_code ErrorCode.storage_not_found = GrpcCode.not_found
grpc_code ErrorCode.db_record_not_found = GrpcCode.not_found
grpc_code ErrorCode.cache_key_not_found = GrpcCode.not_found
grpc_code ErrorCode.db_connection_failed = GrpcCode.internal
grpc_code ErrorCode.cache_unavailable = GrpcCode.internal
grpc_code ErrorCode.storage_upload_failed = GrpcCode.internal
grpc_code ErrorCode.storage_delete_failed = GrpcCode.internal
grpc_code ErrorCode.db_query_failed = GrpcCode.internal
grpc_code ErrorCode.internal_error = GrpcCode.internal
grpc_code ErrorCode.validation_failed = GrpcCode.invalid_argument
grpc_code ErrorCode.db_constraint_violation = GrpcCode.already_exists
grpc_code ErrorCode.conflict = GrpcCode.already_exists
grpc_code ErrorCode.rate_limit_exceeded = GrpcCode.resource_exhausted

unfoldable pub to_status : AppError → Status
to_status e = record { code = grpc_code (code e); message = public_message e }
