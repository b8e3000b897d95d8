-- ===== src/DataPostgres/Credentials.antt =====
-- handler_verify_credentials of apps/data_postgres/src/main.rs and verify_password of
-- infrastructure_postgres/src/auth/password.rs. Argon2 and the Redis stream are a parameter.
use smart_core_assistant_v.Prelude.{
  ℕ, ◌≡◌, refl, sym, ap, ◌∙◌, Bool, Bool-cases, true, false, Option, none, some, List, [], ◌∷◌,
  ◌++◌, ◌⊎◌, inl, inr, ◌↔◌, Text, txt, if◌then◌else◌, arith,
}
use smart_core_assistant_v.Prelude.Results.{sum_apart, inr_inj, some_inj, option_apart}
use smart_core_assistant_v.Contracts.{Envelope, TenantEnvelope, novo, com_traceparent}
use smart_core_assistant_v.ErrorCore.App.{AppError}
use smart_core_assistant_v.Service.{reply, refuse, Answered, reply-Answered, refuse-Answered}
use smart_core_assistant_v.Json.{JsonValue, unwrap_or, str_field, body}
use smart_core_assistant_v.Postgres.Errors.{DbError}
use smart_core_assistant_v.Postgres.Repositories.{Banco, AuthUser}
use smart_core_assistant_v.Transport.Bus.Events.{
  Formats, publicar_evento_no_stream, stream_seguranca,
}
use smart_core_assistant_v.Audit.Logger.{AuditLogPayload}
use smart_core_assistant_v.DataPostgres.Handlers.{svc, falha, Leitores, tenant}

pub record Argon2 : Type 1 where
  pub Phc : Type 0
  pub parse : Text → Option Phc
  pub verify : Text → Phc → Bool

unfoldable pub verify_password : Argon2 → Text → Text → Bool
verify_password argon plaintext phc_hash = elim (argon.parse phc_hash) [
  | none ↦ false
  | some parsed ↦ argon.verify plaintext parsed
]

clash : false ≡ true → ⊥
clash e = cc

module _ {U D : Type 0} (b : Banco U) (json : JsonValue) (l : Leitores U b json) (argon : Argon2)
    (formats : Formats U D (AuditLogPayload U json.J))
    (xadd : Text → ℕ → List (Text × Text) → b.W → (Text ⊎ Text) × b.W) where
  open b use {W}
  open json use {J}

  abbrev pub email_de : Envelope → Text
  email_de env = unwrap_or [] (str_field json (txt "email") (body json env.payload))

  abbrev pub password_de : Envelope → Text
  password_de env = unwrap_or [] (str_field json (txt "password") (body json env.payload))

  abbrev pub usuario_json : AuthUser → J
  usuario_json user = json.object (
      (txt "id", json.integer user.id)
      ∷ (txt "username", json.string user.username)
      ∷ (txt "email", json.string user.email)
      ∷ (txt "is_superuser", json.boolean user.is_superuser)
      ∷ [])

  -- `event_id` and `agora` are what `Uuid::now_v7` and `Utc::now` return.
  unfoldable pub evento_login_failed : U → D → Envelope → TenantEnvelope U D (AuditLogPayload U J)
  evento_login_failed event_id agora env =
      let email = email_de env in
      let tenant_id = tenant b json l env in
      com_traceparent
        (novo event_id agora tenant_id (txt "security.audit") (record {
          tenant_id = some tenant_id;
          level = txt "WARN";
          service = txt "data_postgres";
          trace_id = some env.traceparent;
          event = txt "login_failed";
          message = txt "Tentativa de login falhou para o email: " ++ email;
          context = json.object ((txt "email", json.string email) ∷ []);
          user_id = none;
          ip_address = none;
        }))
        env.traceparent

  abbrev pub recusa : ℕ → Envelope → Envelope
  recusa now env =
      refuse (txt "VerifyCredentials") svc now (AppError.auth (txt "Credenciais inválidas")) env

  -- The error of a publication is logged.
  abbrev pub negar : U → D → ℕ → Envelope → W → Envelope × W
  negar event_id agora now env w = (
    recusa now env,
    (publicar_evento_no_stream formats xadd stream_seguranca
        (evento_login_failed event_id agora env) w).1,
  )

  -- The task that is spawned for the time of the login runs at once; its result is dropped.
  abbrev pub aceitar : Envelope → AuthUser → W → Envelope × W
  aceitar env user w = (
    reply (txt "VerifyCredentials") (json.to_vec (usuario_json user)) env,
    (b.update_ultimo_login user.id w).1,
  )

  abbrev pub decidir : U → D → ℕ → Envelope → (DbError ⊎ Option AuthUser) × W → Envelope × W
  decidir event_id agora now env (inl e, w) = (falha (txt "VerifyCredentials") now env e, w)
  decidir event_id agora now env (inr none, w) = negar event_id agora now env w
  decidir event_id agora now env (inr (some user), w) =
      if verify_password argon (password_de env) user.password_hash
      then aceitar env user w
      else negar event_id agora now env w

  unfoldable pub handler_verify_credentials : U → D → ℕ → Envelope → W → Envelope × W
  handler_verify_credentials event_id agora now env w =
      decidir event_id agora now env (b.select_usuario (email_de env) w)

  -- What the database gives for the e-mail of the request.
  abbrev pub encontrado : Envelope → W → DbError ⊎ Option AuthUser
  encontrado env w = (b.select_usuario (email_de env) w).0

  decidir-Answered :
      (event_id : U) (agora : D) (now : ℕ) (env : Envelope) (x : (DbError ⊎ Option AuthUser) × W)
      → Answered svc (txt "VerifyCredentials") env (decidir event_id agora now env x).0
  unfolding falha
  decidir-Answered event_id agora now env (inl e, w) =
      refuse-Answered svc (txt "VerifyCredentials") now _ env
  decidir-Answered event_id agora now env (inr none, w) =
      refuse-Answered svc (txt "VerifyCredentials") now _ env
  decidir-Answered event_id agora now env (inr (some user), w) =
      elim (Bool-cases (verify_password argon (password_de env) user.password_hash)) [
        | inl good ↦ rw good (reply-Answered svc (txt "VerifyCredentials") _ env)
        | inr bad ↦ rw bad (refuse-Answered svc (txt "VerifyCredentials") now _ env)
      ]

  pub verify-Answered :
      (event_id : U) (agora : D) (now : ℕ) (env : Envelope) (w : W)
      → Answered svc
          (txt "VerifyCredentials")
          env
          (handler_verify_credentials event_id agora now env w).0
  unfolding handler_verify_credentials
  verify-Answered event_id agora now env w =
      decidir-Answered event_id agora now env (b.select_usuario (email_de env) w)

  -- A user is known and the password fits.
  abbrev pub Confere : Envelope → DbError ⊎ Option AuthUser → Type 0
  Confere env r =
      (user : AuthUser) × (r ≡ inr (some user))
      × (verify_password argon (password_de env) user.password_hash ≡ true)

  decidir-kind :
      (event_id : U) (agora : D) (now : ℕ) (env : Envelope) (x : (DbError ⊎ Option AuthUser) × W)
      → ((decidir event_id agora now env x).0.kind ≡ 3) ↔ Confere env x.0
  unfolding reply refuse falha
  decidir-kind event_id agora now env (inl e, w) =
      (λ h. absurd (omega (arith, h)), λ c. absurd (sum_apart c.1))
  decidir-kind event_id agora now env (inr none, w) =
      (λ h. absurd (omega (arith, h)), λ c. absurd (option_apart (inr_inj c.1)))
  decidir-kind event_id agora now env (inr (some user), w) =
      elim (Bool-cases (verify_password argon (password_de env) user.password_hash)) [
        | inl good ↦ rw good ((λ h. (user, refl, good)), λ _. refl)
        | inr bad ↦ rw bad (
          (λ h. absurd (omega (arith, h))),
          λ c.
              let hash = ap (λ (u : AuthUser). u.password_hash) (some_inj (inr_inj c.1)) in
              absurd (clash (sym bad ∙ ap (verify_password argon (password_de env)) hash ∙ c.2)),
        )
      ]

  decidir-denied :
      (event_id : U) (agora : D) (now : ℕ) (env : Envelope) (x : (DbError ⊎ Option AuthUser) × W)
      (o : Option AuthUser)
      → x.0 ≡ inr o
      → (Confere env x.0 → ⊥)
      → (decidir event_id agora now env x).0 ≡ recusa now env
  decidir-denied event_id agora now env (inl e, w) o h n = absurd (sum_apart h)
  decidir-denied event_id agora now env (inr none, w) o h n = refl
  decidir-denied event_id agora now env (inr (some user), w) o h n =
      elim (Bool-cases (verify_password argon (password_de env) user.password_hash)) [
        | inl good ↦ absurd (n (user, refl, good))
        | inr bad ↦ rw bad refl
      ]

  pub verify-denied :
      (event_id : U) (agora : D) (now : ℕ) (env : Envelope) (w : W) (o : Option AuthUser)
      → encontrado env w ≡ inr o
      → (Confere env (encontrado env w) → ⊥)
      → (handler_verify_credentials event_id agora now env w).0 ≡ recusa now env
  unfolding handler_verify_credentials
  verify-denied event_id agora now env w o h n =
      decidir-denied event_id agora now env (b.select_usuario (email_de env) w) o h n

  -- VerifyCredentials replies, as against refusing, exactly when the database gives a user for the
  -- e-mail of the request and the password of the request fits that user's hash.
  pub verify_replies_iff :
      (event_id : U) (agora : D) (now : ℕ) (env : Envelope) (w : W)
      → ((handler_verify_credentials event_id agora now env w).0.kind ≡ 3)
        ↔ Confere env (encontrado env w)
  unfolding handler_verify_credentials
  verify_replies_iff event_id agora now env w =
      decidir-kind event_id agora now env (b.select_usuario (email_de env) w)
