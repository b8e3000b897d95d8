-- ===== src/ErrorCore/Tests.antt =====
-- The theorems on error_core at concrete errors.
use smart_core_assistant_v.Prelude.{◌≡◌, refl, true, txt}
use smart_core_assistant_v.ErrorCore.App.{
  AppError, display, code, severity, retryable, public_message,
}
use smart_core_assistant_v.ErrorCore.Bridge.{i18n_key, to_error_envelope, from_envelope}
use smart_core_assistant_v.ErrorCore.Status.{to_status}
use smart_core_assistant_v.ErrorCore.Report.{ErrorContext, registrar}
use smart_core_assistant_v.ErrorCore.Laws.{variant}
use smart_core_assistant_v.ErrorCore.Border.{IsPublic, from_envelope-keeps, clients_see-IsPublic}

abbrev expired : AppError
expired = AppError.auth (txt "token expired")

abbrev refused : AppError
refused = AppError.database (txt "connection refused")

abbrev missing : AppError
missing = AppError.database (txt "row not found")

abbrev ctx : ErrorContext
ctx = record { trace_id = txt "t"; tenant_id = txt "u" }

from_envelope-keeps_example :
    let peer : AppError = from_envelope (to_error_envelope 7 expired (txt "t") (txt "auth")) in
    (peer ≡ variant expired (display expired))
    × (code peer ≡ code expired)
    × (severity peer ≡ severity expired)
    × (retryable peer ≡ retryable expired)
    × (public_message peer ≡ public_message expired)
    × (i18n_key peer ≡ i18n_key expired)
from_envelope-keeps_example = from_envelope-keeps 7 expired (txt "t") (txt "auth")

clients_see-IsPublic_example :
    IsPublic (to_status refused).message
    × IsPublic (registrar refused ctx).message
    × IsPublic (to_error_envelope 7 refused (txt "t") (txt "db")).user_message_fallback
clients_see-IsPublic_example = clients_see-IsPublic 7 refused ctx (txt "db")

refused-retryable : retryable refused ≡ true
unfolding retryable code
refused-retryable = refl
