-- ===== src/Services/Tests/Logins.antt =====
-- The theorems on logins: at services that answer everything, and at tables in memory.
use smart_core_assistant_v.Prelude.{
  ℕ, ◌+◌, ◌≡◌, refl, text_eq, sym, ap, false, some, List, [], ◌∷◌, inl, inr, Text, txt,
}
use smart_core_assistant_v.Prelude.Results.{some_inj}
use smart_core_assistant_v.ErrorCore.App.{AppError}
use smart_core_assistant_v.Redis.Server.{nonneg}
use smart_core_assistant_v.Json.Plain.{plain_json}
use smart_core_assistant_v.Transport.Error.{TransportError}
use smart_core_assistant_v.Transport.Bus.Events.{Formats}
use smart_core_assistant_v.Postgres.Repositories.{AuthUser}
use smart_core_assistant_v.DataPostgres.Credentials.{verify_password}
use smart_core_assistant_v.DataPostgres.Memory.{ana, banco, empty, argon, xadd}
use smart_core_assistant_v.Services.Rpc.{Rpc}
use smart_core_assistant_v.Services.Login.{RequestContext, Tokens, tokens_json, login}
use smart_core_assistant_v.Services.Sessions
use smart_core_assistant_v.Services.Sessions.{login_denied}
use smart_core_assistant_v.Json.Texts.{texts_json, texts_json_laws}
use smart_core_assistant_v.DataPostgres.Handlers.{Leitores}
use smart_core_assistant_v.DataPostgres.Memory.{first}
use smart_core_assistant_v.Audit.Logger.{AuditLogPayload}
use smart_core_assistant_v.Services.Tests.{display, agora}

-- A service that answers everything, and counts the calls.
abbrev willing : Rpc
willing = record {
  W = ℕ;
  conectar = λ service w. (inr tt, w);
  call = λ service req w. (inr (record req { kind = 3 }), w + 1);
  display = display;
  debug = display;
}

abbrev tokens : Tokens
tokens = record {
  verify = agora;
  store = agora;
  access_token = txt "a";
  refresh_token = txt "r";
  family_id = txt "f";
}

abbrev ctx : RequestContext ℕ
ctx = record { tenant_id = 4; user_id = nonneg 0; user_scopes = []; traceparent = txt "trace" }

abbrev show : ℕ → Text
show u = u ∷ []

abbrev parse_error : List ℕ → Text
parse_error bytes = []

abbrev given : Text
given = tokens_json plain_json willing show parse_error tokens

abbrev leitores : Leitores ℕ banco texts_json
leitores = record {
  parse_str = first;
  nil = 0;
  from_utf8_lossy = λ bytes. bytes;
  to_lowercase = λ t. t;
  mensagem_id = λ m. nonneg 1;
  id_to_string = λ n. txt "1";
  remetente_de = λ m. [];
  conteudo_de = λ m. m;
  timestamp_millis = λ m. nonneg 5;
  mensagem_json = λ m. [];
  atendimento_json = λ a. [];
  contato_json = λ c. [];
  tenant_json = λ t. [];
}

abbrev formats : Formats ℕ ℕ (AuditLogPayload ℕ texts_json.J)
formats = record {
  Value = Text;
  show_uuid = show;
  parse_uuid = λ t. inl [];
  to_rfc3339 = show;
  parse_rfc3339 = λ t. inl [];
  to_string = λ p. inr p.message;
  from_str = λ t. inl [];
  bulk = λ t. t;
  from_redis_value = some;
}

abbrev postgres : Rpc
postgres =
    Sessions.direto banco texts_json leitores argon formats xadd 1 6 9 show parse_error display
      (TransportError.bus [])

does_not_fit :
    (user : AuthUser)
    → some ana ≡ some user
    → verify_password argon (txt "no") user.password_hash ≡ false
unfolding verify_password
does_not_fit user e = ap (λ (u : AuthUser). text_eq (txt "no") u.password_hash) (sym (some_inj e))

login_denied_example :
    (login texts_json postgres show parse_error tokens ctx (txt "a@b") (txt "no") empty).0
    ≡ inl (AppError.auth (txt "Erro de autenticação: Credenciais inválidas"))
login_denied_example =
    login_denied banco texts_json leitores argon formats xadd 1 6 9 show parse_error display
      (TransportError.bus []) texts_json_laws tokens ctx (txt "a@b") (txt "no") empty empty
      (some ana) refl does_not_fit
