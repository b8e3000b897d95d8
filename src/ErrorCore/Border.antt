-- ===== src/ErrorCore/Border.antt =====
-- What a process that receives an error envelope can rely on, and what a client never sees.
use smart_core_assistant_v.Prelude.{
  ℕ, ◌≡◌, refl, sym, ap, ◌∙◌, true, false, ◌++◌, ◌⊎◌, inl, inr, ◌↔◌, map, Text, txt, contains,
  text_eq, if◌then◌else◌, arith,
}
use mathlib.Core.List.{append_cancel_left}
use smart_core_assistant_v.ErrorCore.Code.{ErrorCode, display_code}
use smart_core_assistant_v.ErrorCore.App.{
  AppError, Severity, display, says_connection, says_not_found, code, severity, is_retryable,
  retryable, public_message,
}
use smart_core_assistant_v.ErrorCore.Bridge.{key_char, i18n_key, to_error_envelope, from_envelope}
use smart_core_assistant_v.ErrorCore.Laws.{
  variant, from_envelope-to_error_envelope, code-variant, severity-variant, public_message-variant,
}
use smart_core_assistant_v.ErrorCore.Status.{GrpcCode, grpc_code, to_status}
use smart_core_assistant_v.ErrorCore.Report.{ErrorContext, from_error, emit, registrar}

-- The error that a peer rebuilds from an envelope is the sender's, with its printed text for a
-- message: the constructor is the same, and so are the code, the severity, the answer to "may the
-- client retry", the message for the client and the i18n key.
pub from_envelope-keeps :
    (now : ℕ) (e : AppError) (trace_id source_svc : Text)
    → let peer : AppError = from_envelope (to_error_envelope now e trace_id source_svc) in
      (peer ≡ variant e (display e))
      × (code peer ≡ code e)
      × (severity peer ≡ severity e)
      × (retryable peer ≡ retryable e)
      × (public_message peer ≡ public_message e)
      × (i18n_key peer ≡ i18n_key e)
unfolding retryable i18n_key
from_envelope-keeps now e trace_id source_svc = rw from_envelope-to_error_envelope (
  refl,
  code-variant e,
  severity-variant e,
  ap is_retryable (code-variant e),
  public_message-variant e,
  ap (λ c. txt "errors." ++ map key_char (display_code c)) (code-variant e),
)

-- Reading a code back from its i18n key.
abbrev code_of_key : Text → ErrorCode
code_of_key k =
    if text_eq k (txt "auth.invalid.token")
    then ErrorCode.auth_invalid_token
    else if text_eq k (txt "auth.expired.token")
    then ErrorCode.auth_expired_token
    else if text_eq k (txt "auth.missing.token")
    then ErrorCode.auth_missing_token
    else if text_eq k (txt "auth.insufficient.scope")
    then ErrorCode.auth_insufficient_scope
    else if text_eq k (txt "storage.not.found")
    then ErrorCode.storage_not_found
    else if text_eq k (txt "storage.upload.failed")
    then ErrorCode.storage_upload_failed
    else if text_eq k (txt "storage.delete.failed")
    then ErrorCode.storage_delete_failed
    else if text_eq k (txt "db.connection.failed")
    then ErrorCode.db_connection_failed
    else if text_eq k (txt "db.record.not.found")
    then ErrorCode.db_record_not_found
    else if text_eq k (txt "db.constraint.violation")
    then ErrorCode.db_constraint_violation
    else if text_eq k (txt "db.query.failed")
    then ErrorCode.db_query_failed
    else if text_eq k (txt "cache.unavailable")
    then ErrorCode.cache_unavailable
    else if text_eq k (txt "cache.key.not.found")
    then ErrorCode.cache_key_not_found
    else if text_eq k (txt "validation.failed")
    then ErrorCode.validation_failed
    else if text_eq k (txt "conflict")
    then ErrorCode.conflict
    else if text_eq k (txt "rate.limit.exceeded")
    then ErrorCode.rate_limit_exceeded
    else ErrorCode.internal_error

code_of_key_lem : (c : ErrorCode) → code_of_key (map key_char (display_code c)) ≡ c
unfolding display_code
code_of_key_lem ErrorCode.auth_invalid_token = refl
code_of_key_lem _ = refl

-- Two errors have the same i18n key exactly when they have the same code.
pub i18n_key-eq_iff : (e f : AppError) → (i18n_key e ≡ i18n_key f) ↔ (code e ≡ code f)
unfolding i18n_key
i18n_key-eq_iff e f = (
  λ h.
      sym (code_of_key_lem (code e))
      ∙ ap code_of_key (append_cancel_left (txt "errors.") _ _ h)
      ∙ code_of_key_lem (code f),
  λ h. ap (λ c. txt "errors." ++ map key_char (display_code c)) h,
)

-- The texts that a client may see.
abbrev pub IsPublic : Text → Type 0
IsPublic t =
    (t ≡ txt "Credencial inválida ou ausente.")
    ⊎ (t ≡ txt "Recurso não encontrado.")
    ⊎ (t ≡ txt "Erro ao acessar o banco de dados.")
    ⊎ (t ≡ txt "Erro ao acessar o cache.")
    ⊎ (t ≡ txt "Arquivo não encontrado.")
    ⊎ (t ≡ txt "Erro ao acessar o armazenamento.")
    ⊎ (t ≡ txt "Dados de entrada inválidos.")
    ⊎ (t ≡ txt "Conflito com o estado atual do recurso.")
    ⊎ (t ≡ txt "Limite de requisições excedido. Tente novamente mais tarde.")
    ⊎ (t ≡ txt "Erro interno do servidor.")

public_message-IsPublic : (e : AppError) → IsPublic (public_message e)
unfolding public_message
public_message-IsPublic (AppError.database m) =
    elim (says_not_found m)
      as (λ b.
        IsPublic
          (if b then txt "Recurso não encontrado." else txt "Erro ao acessar o banco de dados.")) [
            | true ↦ inr (inl refl)
            | false ↦ inr (inr (inl refl))
          ]
public_message-IsPublic (AppError.cache m) = inr (inr (inr (inl refl)))
public_message-IsPublic (AppError.storage m) =
    elim (says_not_found m)
      as (λ b.
        IsPublic
          (if b then txt "Arquivo não encontrado." else txt "Erro ao acessar o armazenamento.")) [
            | true ↦ inr (inr (inr (inr (inl refl))))
            | false ↦ inr (inr (inr (inr (inr (inl refl)))))
          ]
public_message-IsPublic (AppError.auth m) = inl refl
public_message-IsPublic (AppError.validation m) = inr (inr (inr (inr (inr (inr (inl refl))))))
public_message-IsPublic (AppError.conflict m) = inr (inr (inr (inr (inr (inr (inr (inl refl)))))))
public_message-IsPublic (AppError.rate_limit m) =
    inr (inr (inr (inr (inr (inr (inr (inr (inl refl))))))))
public_message-IsPublic (AppError.internal m) =
    inr (inr (inr (inr (inr (inr (inr (inr (inr refl))))))))

-- Whatever message an error carries, the gRPC status, the log line and the envelope's fallback
-- text show one of ten fixed texts.
pub clients_see-IsPublic :
    (now : ℕ) (e : AppError) (ctx : ErrorContext) (source_svc : Text)
    → IsPublic (to_status e).message
      × IsPublic (registrar e ctx).message
      × IsPublic (to_error_envelope now e ctx.trace_id source_svc).user_message_fallback
unfolding to_status registrar to_error_envelope
clients_see-IsPublic now e ctx source_svc =
    let shown : IsPublic (public_message e) = public_message-IsPublic e in
    (
      shown,
      elim (severity e) as (λ s. IsPublic (emit s (from_error e ctx)).message) [
        | Severity.error ↦ shown
        | Severity.warn ↦ shown
      ],
      shown,
    )

is_retryable-internal : (c : ErrorCode) → is_retryable c ≡ true → grpc_code c ≡ GrpcCode.internal
is_retryable-internal ErrorCode.db_connection_failed h = refl
is_retryable-internal c h = ground arith

-- An error that the client may retry reaches a gRPC client as `Internal`, whatever its kind.
pub to_status_of_retryable :
    (e : AppError) → retryable e ≡ true → (to_status e).code ≡ GrpcCode.internal
unfolding retryable to_status
to_status_of_retryable e h = is_retryable-internal (code e) h

-- A database error whose message says "not found" and not "não encontrado", and names no
-- connection, has the code of a missing record and yet the severity of a failure.
pub not_found_is_error :
    (msg : Text)
    → says_connection msg ≡ false
    → contains (txt "não encontrado") msg ≡ false
    → contains (txt "not found") msg ≡ true
    → (code (AppError.database msg) ≡ ErrorCode.db_record_not_found)
      × (severity (AppError.database msg) ≡ Severity.error)
unfolding code severity
not_found_is_error msg p q r = (rw (p, q, r), rw q)
