-- ===== src/DataPostgres/Tests.antt =====
-- The theorems on data_postgres at tables in memory. In the JSON of the examples every field of a payload is the whole payload.
use smart_core_assistant_v.Prelude.{ℕ, ◌≡◌, refl, none, [], ◌↔◌, txt}
use smart_core_assistant_v.Contracts.{Envelope}
use smart_core_assistant_v.Service.{reply}
use smart_core_assistant_v.Json.Plain.{plain_json}
use smart_core_assistant_v.Postgres.Repositories.{run_in_tenant_transaction, criar_mensagem}
use smart_core_assistant_v.DataPostgres.Handlers.{persistir, handler_persist_message}
use smart_core_assistant_v.DataPostgres.Credentials.{
  handler_verify_credentials, Confere, encontrado, verify_replies_iff,
}
use smart_core_assistant_v.DataPostgres.Memory.{
  Tables, banco, leitores, empty, argon, formats, xadd,
}
use smart_core_assistant_v.DataPostgres.Replies.{Sorteio}

abbrev request : Envelope
request = record {
  tenant_id = txt "t";
  schema_version = 1;
  message_id = txt "m";
  causation_id = [];
  traceparent = txt "trace";
  occurred_at = 5;
  kind = 2;
  method = txt "PersistMessage";
  payload = txt "pw";
  error = none;
}

abbrev persisted : Envelope × Tables
persisted = handler_persist_message banco plain_json leitores 9 request empty

replied : persisted.0.kind ≡ 3
unfolding handler_persist_message run_in_tenant_transaction persistir criar_mensagem reply
replied = refl

abbrev sorteio : Sorteio ℕ ℕ
sorteio = record { id = 1; api_key = txt "k"; agora = 6; now = 9 }

verify_replies_iff_example :
    ((handler_verify_credentials banco plain_json leitores argon formats xadd 1 6 9 request
        empty).0.kind
      ≡ 3)
    ↔ Confere banco plain_json leitores argon formats xadd request
        (encontrado banco plain_json leitores argon formats xadd request empty)
verify_replies_iff_example =
    verify_replies_iff banco plain_json leitores argon formats xadd 1 6 9 request empty
