-- ===== src/ErrorCore/Laws.antt =====
-- The classification of errors, and what it keeps at the border between two processes.
use smart_core_assistant_v.Prelude.{
  ℕ, ◌≡◌, refl, ap, Bool, true, false, Text, txt, contains, if◌then◌else◌,
}
use smart_core_assistant_v.ErrorCore.Code.{ErrorCode, display_code}
use smart_core_assistant_v.ErrorCore.App.{
  AppError, display, says_expired, says_missing, says_scope, says_connection, says_not_found,
  says_constraint, says_unavailable, code, severity, public_message,
}
use smart_core_assistant_v.ErrorCore.Bridge.{to_error_envelope, variant_of, from_envelope}

-- The constructor of an error, and the same error with its message printed into a new one.
abbrev pub variant : AppError → Text → AppError
variant (AppError.database _) = AppError.database
variant (AppError.cache _) = AppError.cache
variant (AppError.storage _) = AppError.storage
variant (AppError.auth _) = AppError.auth
variant (AppError.validation _) = AppError.validation
variant (AppError.conflict _) = AppError.conflict
variant (AppError.rate_limit _) = AppError.rate_limit
variant (AppError.internal _) = AppError.internal

variant_of-auth :
    (a b c : Bool)
    → variant_of (
        display_code (
          if a
          then ErrorCode.auth_expired_token
          else if b
          then ErrorCode.auth_missing_token
          else if c
          then ErrorCode.auth_insufficient_scope
          else ErrorCode.auth_invalid_token))
      ≡ AppError.auth
unfolding display_code
variant_of-auth true b c = refl
variant_of-auth false true c = refl
variant_of-auth false false true = refl
variant_of-auth false false false = refl

variant_of-database :
    (a b c : Bool)
    → variant_of (
        display_code (
          if a
          then ErrorCode.db_connection_failed
          else if b
          then ErrorCode.db_record_not_found
          else if c
          then ErrorCode.db_constraint_violation
          else ErrorCode.db_query_failed))
      ≡ AppError.database
unfolding display_code
variant_of-database true b c = refl
variant_of-database false true c = refl
variant_of-database false false true = refl
variant_of-database false false false = refl

variant_of-cache :
    (a : Bool)
    → variant_of
        (display_code (if a then ErrorCode.cache_unavailable else ErrorCode.cache_key_not_found))
      ≡ AppError.cache
unfolding display_code
variant_of-cache true = refl
variant_of-cache false = refl

variant_of-storage :
    (a b : Bool)
    → variant_of (
        display_code (
          if a
          then ErrorCode.storage_not_found
          else if b
          then ErrorCode.storage_upload_failed
          else ErrorCode.storage_delete_failed))
      ≡ AppError.storage
unfolding display_code
variant_of-storage true b = refl
variant_of-storage false true = refl
variant_of-storage false false = refl

pub variant_of-display_code : (e : AppError) → variant_of (display_code (code e)) ≡ variant e
unfolding code
variant_of-display_code (AppError.database m) =
    variant_of-database (says_connection m) (says_not_found m) (says_constraint m)
variant_of-display_code (AppError.cache m) = variant_of-cache (says_unavailable m)
variant_of-display_code (AppError.storage m) =
    variant_of-storage (says_not_found m) (contains (txt "upload") m)
variant_of-display_code (AppError.auth m) =
    variant_of-auth (says_expired m) (says_missing m) (says_scope m)
variant_of-display_code (AppError.validation m) = unfold display_code in refl
variant_of-display_code (AppError.conflict m) = unfold display_code in refl
variant_of-display_code (AppError.rate_limit m) = unfold display_code in refl
variant_of-display_code (AppError.internal m) = unfold display_code in refl

pub from_envelope-to_error_envelope :
    (now : ℕ) (e : AppError) (trace_id source_svc : Text)
    → from_envelope (to_error_envelope now e trace_id source_svc) ≡ variant e (display e)
unfolding from_envelope to_error_envelope
from_envelope-to_error_envelope now e trace_id source_svc =
    ap (λ (f : Text → AppError). f (display e)) (variant_of-display_code e)

-- The printed prefix holds none of the words that the guards look for.
pub code-variant : (e : AppError) → code (variant e (display e)) ≡ code e
unfolding code display
code-variant (AppError.database m) = refl
code-variant (AppError.cache m) = refl
code-variant (AppError.storage m) = refl
code-variant (AppError.auth m) = refl
code-variant _ = refl

pub severity-variant : (e : AppError) → severity (variant e (display e)) ≡ severity e
unfolding severity display
severity-variant (AppError.database m) = refl
severity-variant _ = refl

pub public_message-variant :
    (e : AppError) → public_message (variant e (display e)) ≡ public_message e
unfolding public_message display
public_message-variant (AppError.database m) = refl
public_message-variant _ = refl
