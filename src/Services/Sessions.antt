-- ===== src/Services/Sessions.antt =====
-- What a login of crates/application/src/auth/login.rs gives, alone and over the handler of
-- apps/data_postgres/src/main.rs.
use smart_core_assistant_v.Prelude.{
  ℕ, ◌≡◌, refl, sym, ap, ◌∙◌, true, false, Option, none, some, List, ◌⊎◌, inl, inr, Text, txt,
  text_eq, ◌==◌, [], ◌∷◌, ◌++◌, Bool, ◌&&◌, if◌then◌else◌,
}
use smart_core_assistant_v.Redis.Server.{I64, nonneg}
use smart_core_assistant_v.Prelude.Results.{inr_inj}
use smart_core_assistant_v.Prelude.Steps.{Step, ◌>>=◌, ◌>>◌, pure}
use smart_core_assistant_v.Contracts.{Envelope, ErrorEnvelope}
use smart_core_assistant_v.ErrorCore.Code.{display_code}
use smart_core_assistant_v.ErrorCore.App
use smart_core_assistant_v.ErrorCore.App.{AppError}
use smart_core_assistant_v.ErrorCore.Bridge.{from_envelope, to_error_envelope}
use smart_core_assistant_v.Service.{refuse}
use smart_core_assistant_v.Json.{JsonValue, FieldsLaws, unwrap_or}
use smart_core_assistant_v.Transport.Error.{TransportError}
use smart_core_assistant_v.Postgres.Repositories.{Banco, AuthUser}
use smart_core_assistant_v.Transport.Bus.Events.{Formats}
use smart_core_assistant_v.DataPostgres.Handlers.{svc, Leitores}
use smart_core_assistant_v.Audit.Logger.{AuditLogPayload}
use smart_core_assistant_v.DataPostgres.Credentials.{
  Argon2, handler_verify_credentials, encontrado, Confere, recusa, verify-denied, verify_password,
  email_de, password_de,
}
use smart_core_assistant_v.Services.Rpc.{Rpc}
use smart_core_assistant_v.Services.Login.{
  RequestContext, Tokens, pedido_credenciais, aceita, user_info, user_id_de, tokens_json, verificar,
  guardar, login,
}

clash : false ≡ true → ⊥
clash e = cc

module _ {U : Type 0} (json : JsonValue) (rpc : Rpc) (show_uuid : U → Text)
    (from_slice_error : List ℕ → Text) where
  open rpc use {W}
  open json use {J}

  abbrev desconhecido : AppError
  desconhecido = AppError.auth (txt "Erro desconhecido na autenticação")

  abbrev sem_token : AppError
  sem_token = AppError.cache (txt "Erro ao salvar refresh token")

  -- The rest of the login after each of its steps.
  abbrev apos_guardar : Tokens → Envelope → Step W AppError J
  apos_guardar t stored =
      aceita json rpc show_uuid from_slice_error sem_token stored
      >> pure (tokens_json json rpc show_uuid from_slice_error t)

  abbrev apos_info : Tokens → RequestContext U → Envelope → J → Step W AppError J
  apos_info t ctx resp info =
      guardar json rpc show_uuid from_slice_error t ctx resp
        (user_id_de json rpc show_uuid from_slice_error info)
      >>= apos_guardar t

  abbrev apos_aceita : Tokens → RequestContext U → Envelope → Step W AppError J
  apos_aceita t ctx resp =
      user_info json rpc show_uuid from_slice_error resp >>= apos_info t ctx resp

  abbrev apos_verificar : Tokens → RequestContext U → Envelope → Step W AppError J
  apos_verificar t ctx resp =
      aceita json rpc show_uuid from_slice_error desconhecido resp >> apos_aceita t ctx resp

  -- A call that was answered, between two states.
  abbrev pub Chamou : Text → Envelope → Envelope → W → W → Type 0
  Chamou service req resp w v =
      (u : W) × (rpc.conectar service w ≡ (inr tt, u)) × (rpc.call service req u ≡ (inr resp, v))

  -- An answer to VerifyCredentials that is an error ends the login with the error that it carries:
  -- nothing more is called.
  login-error :
      (t : Tokens) (ctx : RequestContext U) (email password : Text) (w v : W) (resp : Envelope)
      (e : ErrorEnvelope)
      → verificar json rpc show_uuid from_slice_error t ctx email password w ≡ (inr resp, v)
      → (resp.kind == 5) ≡ true
      → resp.error ≡ some e
      → login json rpc show_uuid from_slice_error t ctx email password w
        ≡ (inl (from_envelope e), v)
  unfolding login
  login-error t ctx email password w v resp e h k c = rw (h, k, c) refl

  -- The request with the credentials, and the one with the token, field by field.
  abbrev pub com_credenciais : Tokens → RequestContext U → Text → Text → Envelope
  com_credenciais t ctx email password = record {
    tenant_id = show_uuid ctx.tenant_id;
    schema_version = 1;
    message_id = t.verify.message_id;
    causation_id = [];
    traceparent = ctx.traceparent;
    occurred_at = t.verify.occurred_at;
    kind = 2;
    method = txt "VerifyCredentials";
    payload = json.to_vec (
        json.object
          ((txt "email", json.string email) ∷ (txt "password", json.string password) ∷ []));
    error = none;
  }

  abbrev pub com_token : Tokens → RequestContext U → Envelope → I64 → Envelope
  com_token t ctx cause user_id = record {
    tenant_id = show_uuid ctx.tenant_id;
    schema_version = 1;
    message_id = t.store.message_id;
    causation_id = cause.message_id;
    traceparent = ctx.traceparent;
    occurred_at = t.store.occurred_at;
    kind = 2;
    method = txt "StoreRefreshToken";
    payload = json.to_vec (
        json.object (
          (txt "token_hash", json.string (txt "hash_" ++ t.refresh_token))
          ∷ (txt "user_id", json.integer user_id)
          ∷ (txt "family_id", json.string t.family_id)
          ∷ (txt "ttl", json.integer (nonneg 86400))
          ∷ []));
    error = none;
  }

module _ {U D : Type 0} (b : Banco U) (json : JsonValue) (l : Leitores U b json) (argon : Argon2)
    (formats : Formats U D (AuditLogPayload U json.J))
    (xadd : Text → ℕ → List (Text × Text) → b.W → (Text ⊎ Text) × b.W) (event_id : U) (agora : D)
    (now : ℕ) (show_uuid : U → Text) (from_slice_error : List ℕ → Text)
    (display : TransportError → Text) (inalcancavel : TransportError) where
  -- Of the services only data_postgres can be reached, and of its methods only VerifyCredentials; any
  -- other call fails.
  abbrev pub atendido : Bool → Envelope → b.W → (TransportError ⊎ Envelope) × b.W
  atendido false req w = (inl inalcancavel, w)
  atendido true req w =
      let (out, v) =
        handler_verify_credentials b json l argon formats xadd event_id agora now req w in
      (inr out, v)

  abbrev pub direto : Rpc
  direto = record {
    W = b.W;
    conectar = λ service w.
        (if text_eq service (txt "data_postgres") then inr tt else inl inalcancavel, w);
    call = λ service req w.
        atendido
          (text_eq service (txt "data_postgres") && text_eq req.method (txt "VerifyCredentials"))
          req w;
    display = display;
    debug = display;
  }

  -- A login with an e-mail for which the database gives no user, or with a password that does not fit
  -- the hash of the user that it gives, ends with an authentication error and no token, when
  -- data_postgres answers and can read its table of users.
  pub login_denied :
      (fields : FieldsLaws json) (t : Tokens) (ctx : RequestContext U) (email password : Text)
      (w v : b.W) (o : Option AuthUser)
      → b.select_usuario email w ≡ (inr o, v)
      → ((user : AuthUser)
          → o ≡ some user
          → verify_password argon password user.password_hash ≡ false)
      → (login json direto show_uuid from_slice_error t ctx email password w).0
        ≡ inl (AppError.auth (txt "Erro de autenticação: Credenciais inválidas"))
  unfolding pedido_credenciais refuse to_error_envelope from_envelope display_code App.code
      App.display
  login_denied fields t ctx email password w v o found bad =
      let req = pedido_credenciais json direto show_uuid from_slice_error t ctx email password in
      let (email_read, password_read) =
        fields.two_texts (txt "email") (txt "password") email password refl in
      let same_email : email_de b json l argon formats xadd req ≡ email =
        ap (unwrap_or []) email_read in
      let same_password : password_de b json l argon formats xadd req ≡ password =
        ap (unwrap_or []) password_read in
      let asked : encontrado b json l argon formats xadd req w ≡ inr o =
        ap (λ z. (b.select_usuario z w).0) same_email ∙ ap (λ z. z.0) found in
      let unfit : Confere b json l argon formats xadd req
            (encontrado b json l argon formats xadd req w)
          → ⊥ =
        λ c. clash (
          sym (bad c.0 (inr_inj (sym asked ∙ c.1)))
          ∙ ap (λ z. verify_password argon z c.0.password_hash) (sym same_password)
          ∙ c.2) in
      let answer =
        handler_verify_credentials b json l argon formats xadd event_id agora now req w in
      let refused : answer.0 ≡ recusa b json l argon formats xadd now req =
        verify-denied b json l argon formats xadd event_id agora now req w o asked unfit in
      ap (λ z. z.0)
        (login-error json direto show_uuid from_slice_error t ctx email password w answer.1 answer.0
          (to_error_envelope now (AppError.auth (txt "Credenciais inválidas")) req.traceparent svc)
          refl (ap (λ (z : Envelope). z.kind == 5) refused)
          (ap (λ (z : Envelope). z.error) refused))
