-- ===== src/DataPostgres/Memory.antt =====
-- Tables in memory, with one user, whom the database gives for every e-mail and whose password is its
-- own hash.
use smart_core_assistant_v.Prelude.{
  ℕ, sym, ap, ◌∙◌, false, Option, none, some, List, [], ◌∷◌, ◌++◌, ◌⊎◌, inl, inr, Text, txt,
  text_eq,
}
use smart_core_assistant_v.Prelude.Results.{inr_inj}
use smart_core_assistant_v.Redis.Server.{nonneg}
use smart_core_assistant_v.Json.Plain.{plain_json}
use smart_core_assistant_v.Postgres.Repositories.{Banco, AuthUser}
use smart_core_assistant_v.Postgres.Transaction.{Tabelas, BancoLaws}
use smart_core_assistant_v.Transport.Bus.Events.{Formats}
use smart_core_assistant_v.DataPostgres.Handlers.{Leitores}
use smart_core_assistant_v.Audit.Logger.{AuditLogPayload}
use smart_core_assistant_v.DataPostgres.Credentials.{Argon2}

abbrev pub Tables : Type 0
Tables = Tabelas ℕ Text

abbrev pub ana : AuthUser
ana = record {
  id = nonneg 7;
  username = txt "ana";
  email = txt "a@b";
  password_hash = txt "pw";
  first_name = [];
  last_name = [];
  is_active = false;
  is_staff = false;
  last_login = none;
  date_joined = 0;
  is_superuser = false;
}

abbrev pub banco : Banco ℕ
banco = record {
  W = Tables;
  Tx = Tables;
  Mensagem = Text;
  Atendimento = Text;
  Contato = Text;
  Tenant = Text;
  begin = λ w. (inr w, w);
  set_config = λ u tx. (inr tt, tx);
  commit = λ tx w. (inr tt, tx);
  insert_mensagem = λ u nova tx.
      (inr nova.conteudo, record tx { mensagens = tx.mensagens ++ nova.conteudo ∷ [] });
  select_mensagens = λ u id limit offset tx. (inr tx.mensagens, tx);
  insert_outbox = λ o tx. (inr tt, record tx { outbox = tx.outbox ++ o ∷ [] });
  select_atendimentos = λ u status dep limit tx. (inr [], tx);
  upsert_contato = λ u phone name tx. (inr phone, tx);
  insert_tenant = λ u name slug key owner email phone tx. (inr name, tx);
  select_usuario = λ email w. (inr (some ana), w);
  update_ultimo_login = λ id w. (inr tt, w);
}

unfoldable pub banco_laws : BancoLaws banco
banco_laws = record {
  vista = record {
    view = λ w. w;
    tx_view = λ tx. tx;
    begin_ok = λ w tx v e. (sym (inr_inj (ap (λ z. z.0) e)), sym (ap (λ (z : _ × Tables). z.1) e));
    begin_err = λ w e v h. sym (ap (λ z. z.1) h);
    set_config_ok = λ u tx end e. sym (ap (λ z. z.1) e);
    commit_ok = λ tx w v e. sym (ap (λ z. z.1) e);
    commit_err = λ tx w e v h. inr (sym (ap (λ z. z.1) h));
  };
  insert_mensagem_ok = λ u nova tx msg end e.
      sym (ap (λ z. z.1) e)
      ∙ ap (λ m. record tx { mensagens = tx.mensagens ++ m ∷ [] }) (inr_inj (ap (λ z. z.0) e));
  insert_outbox_ok = λ o tx end e. sym (ap (λ z. z.1) e);
}

abbrev pub first : Text → Option ℕ
first [] = none
first (n ∷ t) = some n

abbrev pub leitores : Leitores ℕ banco plain_json
leitores = record {
  parse_str = first;
  nil = 0;
  from_utf8_lossy = λ bytes. bytes;
  to_lowercase = λ t. t;
  mensagem_id = λ m. nonneg 1;
  id_to_string = λ n. txt "1";
  remetente_de = λ m. [];
  conteudo_de = λ m. m;
  timestamp_millis = λ m. nonneg 5;
  mensagem_json = λ m. m;
  atendimento_json = λ a. a;
  contato_json = λ c. c;
  tenant_json = λ t. t;
}

abbrev pub empty : Tables
empty = record { mensagens = []; outbox = [] }

-- The password is its own hash.
abbrev pub argon : Argon2
argon = record { Phc = Text; parse = some; verify = text_eq }

abbrev pub formats : Formats ℕ ℕ (AuditLogPayload ℕ Text)
formats = record {
  Value = Text;
  show_uuid = λ u. u ∷ [];
  parse_uuid = λ t. inl [];
  to_rfc3339 = λ d. d ∷ [];
  parse_rfc3339 = λ t. inl [];
  to_string = λ p. inr p.message;
  from_str = λ t. inl [];
  bulk = λ t. t;
  from_redis_value = some;
}

abbrev pub xadd : Text → ℕ → List (Text × Text) → Tables → (Text ⊎ Text) × Tables
xadd stream maxlen fields w = (inr (txt "1-0"), w)
