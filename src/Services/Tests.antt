-- ===== src/Services/Tests.antt =====
-- The theorems on the services at tables in memory. In the JSON of the examples every field of a
-- payload is the whole payload.
mod Logins
use smart_core_assistant_v.Prelude.{
  ℕ, ◌+◌, ◌≡◌, ap, ◌∙◌, false, true, none, some, [], ◌∷◌, ◌⊎◌, inl, inr, Text, txt, ◌==◌,
}
use smart_core_assistant_v.Prelude.Results.{inr_inj, some_inj}
use smart_core_assistant_v.Contracts.{Envelope}
use smart_core_assistant_v.ErrorCore.App.{AppError}
use smart_core_assistant_v.Redis.Server.{nonneg}
use smart_core_assistant_v.Json.Plain.{plain_json}
use smart_core_assistant_v.Transport.Error.{TransportError}
use smart_core_assistant_v.Transport.Bus.Events.{Formats, extrair_evento, gravada, campos}
use smart_core_assistant_v.Postgres.Repositories.{AuthUser}
use smart_core_assistant_v.DataPostgres.Credentials.{
  verify_password, password_de, Confere, encontrado,
}
use smart_core_assistant_v.DataPostgres.Memory.{Tables, ana, banco, leitores, empty, argon, xadd}
use smart_core_assistant_v.DataPostgres.Memory
use smart_core_assistant_v.Services.Rpc.{Rpc, Agora}
use smart_core_assistant_v.Services.Gateway.{Recebimento, evento_recebido}
use smart_core_assistant_v.Services.Worker.{processar_mensagem_recebida}
use smart_core_assistant_v.Services.Ingestion
use smart_core_assistant_v.Services.Login.{
  RequestContext, Tokens, pedido_credenciais, pedido_refresh, user_id_de, tokens_json, login,
}
use smart_core_assistant_v.Services.Sessions
use smart_core_assistant_v.Services.Sessions.{Chamou, login_denied}

clash : false ≡ true → ⊥
clash e = cc

abbrev one_of : Text → Text ⊎ ℕ
one_of [] = inl (txt "invalid")
one_of (n ∷ t) = inr n

abbrev formats : Formats ℕ ℕ Text
formats = record {
  Value = Text;
  show_uuid = λ u. u ∷ [];
  parse_uuid = one_of;
  to_rfc3339 = λ d. d ∷ [];
  parse_rfc3339 = one_of;
  to_string = λ t. inr t;
  from_str = λ t. inr t;
  bulk = λ t. t;
  from_redis_value = some;
}

abbrev pub display : TransportError → Text
display e = []

abbrev webhook : Envelope
webhook = record {
  tenant_id = 4 ∷ [];
  schema_version = 1;
  message_id = txt "m";
  causation_id = [];
  traceparent = txt "trace";
  occurred_at = 5;
  kind = 2;
  method = txt "ReceiveWebhook";
  payload = txt "hi";
  error = none;
}

abbrev recebimento : Recebimento ℕ ℕ
recebimento = record { event_id = 6; agora = 7; millis = nonneg 8; now = 9 }

abbrev pub agora : Agora
agora = record { message_id = txt "q"; occurred_at = 10 }

abbrev entry : Text
entry = (evento_recebido plain_json leitores.parse_str 0 recebimento webhook).payload

abbrev stored : Tables
stored =
    (processar_mensagem_recebida plain_json formats
      (Ingestion.direto banco plain_json leitores formats display 9) agora
      (extrair_evento formats (
        gravada formats (txt "1-0") (
          campos formats (evento_recebido plain_json leitores.parse_str 0 recebimento webhook)
            entry)))
      empty).1
