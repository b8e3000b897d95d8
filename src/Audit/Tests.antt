-- ===== src/Audit/Tests.antt =====
-- The theorem on the trail of audit events at a table in memory. The format of the examples prints
-- one payload and no other.
use smart_core_assistant_v.Prelude.{
  ℕ, ◌≡◌, refl, sym, ap, Bool, true, false, Option, none, some, List, [], ◌∷◌, ◌++◌, ◌⊎◌, inl, inr,
  Text, txt, text_eq, text_eq_iff, ◌&&◌,
}
use smart_core_assistant_v.Prelude.Results.{inr_inj, sum_apart}
use smart_core_assistant_v.Postgres.Errors.{DbError}
use smart_core_assistant_v.Postgres.Repositories.{Banco}
use smart_core_assistant_v.Transport.Error.{ok}
use smart_core_assistant_v.Transport.Bus.Events.{
  Formats, FormatsLaws, stream_seguranca, maxlen_aprox, extrair_evento, gravada, campos,
}
use smart_core_assistant_v.Audit.Logger.{AuditLogPayload, Ocorrencia, payload_de}
use smart_core_assistant_v.Audit.Consumer.{
  NewAuditLogEntry, Insercoes, consolidar, processar_evento_auditoria,
}
use smart_core_assistant_v.Audit.Rows.{
  InsercoesLaws, Consolidada, evento_registrado, registrar, linha_de, logged_event_row,
}

abbrev One : Type 0
One = Unit {0}

abbrev Rows : Type 0
Rows = List (NewAuditLogEntry One One)

abbrev banco : Banco One
banco = record {
  W = Rows;
  Tx = Rows;
  Mensagem = Text;
  Atendimento = Text;
  Contato = Text;
  Tenant = Text;
  begin = λ w. (inr w, w);
  set_config = λ u tx. (inr tt, tx);
  commit = λ tx w. (inr tt, tx);
  insert_mensagem = λ u nova tx. (inr nova.conteudo, tx);
  select_mensagens = λ u id limit offset tx. (inr [], tx);
  insert_outbox = λ o tx. (inr tt, tx);
  select_atendimentos = λ u status dep limit tx. (inr [], tx);
  upsert_contato = λ u phone name tx. (inr phone, tx);
  insert_tenant = λ u name slug key owner email phone tx. (inr name, tx);
  select_usuario = λ email w. (inr none, w);
  update_ultimo_login = λ id w. (inr tt, w);
}

abbrev add : NewAuditLogEntry One One → Rows → (DbError ⊎ One) × Rows
add row w = (inr tt, w ++ row ∷ [])

abbrev sql : Insercoes banco One
sql = record { insert = add; insert_pool = add }

unfoldable laws : InsercoesLaws banco sql
laws = record {
  vista = record {
    view = λ w. w;
    tx_view = λ tx. tx;
    begin_ok = λ w tx v e. (sym (inr_inj (ap (λ z. z.0) e)), sym (ap (λ (z : _ × Rows). z.1) e));
    begin_err = λ w e v h. sym (ap (λ z. z.1) h);
    set_config_ok = λ u tx end e. sym (ap (λ z. z.1) e);
    commit_ok = λ tx w v e. sym (ap (λ z. z.1) e);
    commit_err = λ tx w e v h. inr (sym (ap (λ z. z.1) h));
  };
  insert_ok = λ row tx id end e. sym (ap (λ z. z.1) e);
  insert_pool_ok = λ row w id v e. sym (ap (λ z. z.1) e);
  insert_pool_err = λ row w e v h. inl (absurd (sum_apart (sym (ap (λ z. z.0) h))));
}

abbrev entrou : Ocorrencia One
entrou = record {
  event = txt "e";
  message = txt "m";
  context = tt;
  user_id = none;
  ip_address = none;
  trace_id = none;
}

abbrev sample : AuditLogPayload One One
sample = payload_de (txt "w") (some tt) (txt "INFO") entrou

abbrev is_none : {A : Type 0} → Option A → Bool
is_none none = true
is_none (some x) = false

abbrev is_some : {A : Type 0} → Option A → Bool
is_some none = false
is_some (some x) = true

none_of : {A : Type 0} (x : Option A) → is_none x ≡ true → x ≡ none
none_of none e = refl
none_of (some x) e = absurd cc

some_of : (x : Option One) → is_some x ≡ true → x ≡ some tt
some_of none e = absurd cc
some_of (some x) e = refl

both : (a b : Bool) → (a && b) ≡ true → (a ≡ true) × (b ≡ true)
both true b e = (refl, e)
both false b e = absurd cc

abbrev is_sample : AuditLogPayload One One → Bool
is_sample p =
    text_eq p.level (txt "INFO")
    && (text_eq p.service (txt "w")
        && (text_eq p.event (txt "e")
            && (text_eq p.message (txt "m")
                && (is_some p.tenant_id
                    && (is_none p.trace_id && (is_none p.user_id && is_none p.ip_address))))))

is_sample_lem : (p : AuditLogPayload One One) → is_sample p ≡ true → p ≡ sample
is_sample_lem p e =
    let (e1, r1) = both (text_eq p.level (txt "INFO")) _ e in
    let (e2, r2) = both (text_eq p.service (txt "w")) _ r1 in
    let (e3, r3) = both (text_eq p.event (txt "e")) _ r2 in
    let (e4, r4) = both (text_eq p.message (txt "m")) _ r3 in
    let (e5, r5) = both (is_some p.tenant_id) _ r4 in
    let (e6, r6) = both (is_none p.trace_id) _ r5 in
    let (e7, e8) = both (is_none p.user_id) _ r6 in
    λ i. record {
      tenant_id = some_of p.tenant_id e5 i;
      level = (text_eq_iff p.level (txt "INFO")).0 e1 i;
      service = (text_eq_iff p.service (txt "w")).0 e2 i;
      trace_id = none_of p.trace_id e6 i;
      event = (text_eq_iff p.event (txt "e")).0 e3 i;
      message = (text_eq_iff p.message (txt "m")).0 e4 i;
      context = tt;
      user_id = none_of p.user_id e7 i;
      ip_address = none_of p.ip_address e8 i;
    }

abbrev print_if : Bool → Text ⊎ Text
print_if true = inr (txt "p")
print_if false = inl []

print_if_lem : (b : Bool) (s : Text) → print_if b ≡ inr s → b ≡ true
print_if_lem true s e = refl
print_if_lem false s e = absurd (sum_apart e)

abbrev formats : Formats One One (AuditLogPayload One One)
formats = record {
  Value = Text;
  show_uuid = λ u. [];
  parse_uuid = λ t. inr tt;
  to_rfc3339 = λ d. [];
  parse_rfc3339 = λ t. inr tt;
  to_string = λ p. print_if (is_sample p);
  from_str = λ t. inr sample;
  bulk = λ t. t;
  from_redis_value = some;
}

unfoldable formats_laws : FormatsLaws formats
formats_laws = record {
  uuid = λ u. refl;
  date = λ d. refl;
  json = λ p s e. ap inr (sym (is_sample_lem p (print_if_lem (is_sample p) s e)));
  value = λ t. refl;
}

abbrev xadd : Text → ℕ → List (Text × Text) → List Text → (Text ⊎ Text) × List Text
xadd stream maxlen fields r = (inr (txt "1-0"), r ++ stream ∷ [])

abbrev fields : List (Text × Text)
fields =
    campos formats
      (evento_registrado banco sql laws formats formats_laws (txt "w") tt tt tt (some tt)
        (txt "INFO") entrou)
      (txt "p")

abbrev row : NewAuditLogEntry One One
row = linha_de banco sql laws formats formats_laws (txt "w") (some tt) (txt "INFO") entrou

logged_event_row_example :
    (registrar banco sql laws formats formats_laws xadd
        (txt "w")
        tt
        tt
        tt
        (some tt)
        (txt "INFO")
        entrou
        []
      ≡ (xadd stream_seguranca maxlen_aprox fields []).1)
    × (processar_evento_auditoria banco sql formats
          (extrair_evento formats (gravada formats (txt "1-0") fields))
          []
        ≡ (ok tt, (consolidar banco sql row (some tt) []).1))
    × Consolidada banco sql laws row [] (consolidar banco sql row (some tt) [])
logged_event_row_example =
    logged_event_row banco sql laws formats formats_laws xadd (txt "w") tt tt tt (some tt)
      (txt "INFO") entrou (txt "p") (txt "1-0") [] [] refl
