-- ===== src/ErrorCore/Report.antt =====
-- error_core/src/report.rs: the traceable record of an error, and the log line made from it.
use smart_core_assistant_v.Prelude.{Option, none, some, Text, txt}
use smart_core_assistant_v.ErrorCore.Code.{ErrorCode, display_code}
use smart_core_assistant_v.ErrorCore.App.{AppError, Severity, code, severity, public_message}

pub record ErrorContext : Type 0 where
  pub trace_id : Text
  pub tenant_id : Text

pub record ErrorReport : Type 0 where
  pub error_code : ErrorCode
  pub severity : Severity
  pub trace_id : Text
  pub tenant_id : Text
  pub public_message : Text
  pub context : Option Text

unfoldable pub from_error : AppError → ErrorContext → ErrorReport
from_error e ctx = record {
  error_code = code e;
  severity = severity e;
  trace_id = ctx.trace_id;
  tenant_id = ctx.tenant_id;
  public_message = public_message e;
  context = none;
}

unfoldable pub with_context : ErrorReport → Text → ErrorReport
with_context r ctx = record r { context = some ctx }

-- One event of `tracing`: the macro's level, the four fields and the literal text.
pub data Level : Type 0 where
  error warn : Level

pub record LogEvent : Type 0 where
  pub level : Level
  pub error_code : Text
  pub trace_id : Text
  pub tenant_id : Text
  pub message : Text
  pub text : Text

abbrev pub emit : Severity → ErrorReport → LogEvent
emit Severity.error r = record {
  level = Level.error;
  error_code = display_code r.error_code;
  trace_id = r.trace_id;
  tenant_id = r.tenant_id;
  message = r.public_message;
  text = txt "Erro de aplicação registrado";
}
emit Severity.warn r = record {
  level = Level.warn;
  error_code = display_code r.error_code;
  trace_id = r.trace_id;
  tenant_id = r.tenant_id;
  message = r.public_message;
  text = txt "Aviso de aplicação registrado";
}

unfoldable pub registrar : AppError → ErrorContext → LogEvent
unfolding from_error
registrar e ctx = let r = from_error e ctx in emit r.severity r
