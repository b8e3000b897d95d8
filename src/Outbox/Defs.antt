-- ===== src/Outbox/Defs.antt =====
-- `OutboxRelay` of apps/data_postgres/src/outbox_relay.rs. The database and the stream are one
-- parameter, with the data of both in `Db`. `U` is `Uuid`, `D` is `DateTime<Utc>` and `J` is
-- `serde_json::Value`.
use smart_core_assistant_v.Prelude.{
  ℕ, ◌≡◌, Bool, true, false, Option, none, some, List, [], ◌∷◌, ◌++◌, ◌⊎◌, Text,
}
use smart_core_assistant_v.Contracts.{TenantEnvelope}

pub record OutboxRow (U D : Type 0) : Type 0 where
  pub id : U
  pub tenant_id : U
  pub event_type : Text
  pub payload : List ℕ
  pub traceparent : Text
  pub occurred_at : D

-- `from_utf8` is `String::from_utf8` and `from_str` is `serde_json::from_str`. `fetch` is the SELECT
-- of the rows that are not published, `publicar_evento` and `update` answer `false` where they fail.
-- `fluxo` are the entries of the stream, and `publicado` says of a row's id that `published_at` is
-- set.
pub record Servicos (U D J : Type 0) : Type 1 where
  pub Db : Type 0
  pub from_utf8 : List ℕ → Option Text
  pub from_str : Text → Option J
  pub fetch : Db → Option (List (OutboxRow U D))
  pub publicar_evento : TenantEnvelope U D J → Db → Bool × Db
  pub update : U → Db → Bool × Db
  pub fluxo : Db → List (TenantEnvelope U D J)
  pub publicado : Db → U → Bool

-- XADD appends one entry; a call that fails may still have reached the server. An UPDATE of one
-- row sets the column of that row and of no other; one that fails may have done so too.
pub record ServicosLaws {U D J : Type 0} (s : Servicos U D J) : Type 0 where
  pub publicar_ok :
      (e : TenantEnvelope U D J) (a b : s.Db)
      → s.publicar_evento e a ≡ (true, b)
      → s.fluxo b ≡ s.fluxo a ++ e ∷ []
  pub publicar_fails :
      (e : TenantEnvelope U D J) (a b : s.Db)
      → s.publicar_evento e a ≡ (false, b)
      → (s.fluxo b ≡ s.fluxo a) ⊎ (s.fluxo b ≡ s.fluxo a ++ e ∷ [])
  pub publicar_publicado :
      (e : TenantEnvelope U D J) (a : s.Db) (j : U)
      → s.publicado (s.publicar_evento e a).1 j ≡ s.publicado a j
  pub update_fluxo : (k : U) (a : s.Db) → s.fluxo (s.update k a).1 ≡ s.fluxo a
  pub update_ok : (k : U) (a b : s.Db) → s.update k a ≡ (true, b) → s.publicado b k ≡ true
  pub update_publicado :
      (k : U) (a : s.Db) (j : U) → (s.publicado (s.update k a).1 j ≡ s.publicado a j) ⊎ (j ≡ k)

module _ {U D J : Type 0} (s : Servicos U D J) where
  open s use {Db}

  abbrev pub com_payload : OutboxRow U D → Option J → Option (TenantEnvelope U D J)
  com_payload row none = none
  com_payload row (some payload_json) = some (record {
    tenant_id = row.tenant_id;
    event_id = row.id;
    event_type = row.event_type;
    timestamp = row.occurred_at;
    traceparent = row.traceparent;
    payload = payload_json;
  })

  abbrev pub parse_payload : Option Text → Option J
  parse_payload none = none
  parse_payload (some payload_str) = s.from_str payload_str

  -- The envelope of a row, unless its payload is not UTF-8 or not JSON.
  unfoldable pub envelope_de : OutboxRow U D → Option (TenantEnvelope U D J)
  envelope_de row = com_payload row (parse_payload (s.from_utf8 row.payload))

  -- The loop over the rows. The answer is `false` where the function returns the error of an UPDATE;
  -- a failed publication ends the loop without an error.
  unfoldable pub publicar_linhas : List (OutboxRow U D) → Db → Bool × Db
  publicar_linhas [] db = (true, db)
  publicar_linhas (row ∷ rows) db = elim (envelope_de row) [
    | none ↦ publicar_linhas rows db
    | some envelope ↦
        let (published, db1) = s.publicar_evento envelope db in
        elim published [
          | false ↦ (true, db1)
          | true ↦
              let (updated, db2) = s.update row.id db1 in
              elim updated [ false ↦ (false, db2) | true ↦ publicar_linhas rows db2 ]
        ]
  ]

  abbrev pub com_linhas : Option (List (OutboxRow U D)) → Db → Bool × Db
  com_linhas none db = (false, db)
  com_linhas (some rows) db = publicar_linhas rows db

  unfoldable pub drenar_outbox : Db → Bool × Db
  drenar_outbox db = com_linhas (s.fetch db) db

-- What `recv` of the listener answers.
pub data Aviso : Type 0 where
  notificado perdido : Aviso

-- What happens to the data between two drains: other services write rows, and readers the stream.
pub record Volta (Db : Type 0) : Type 0 where
  pub aviso : Aviso
  pub entre : Db → Db

module _ {U D J : Type 0} (s : Servicos U D J) where
  -- One round of the loop: with an error of the listener the relay only connects again.
  unfoldable pub volta : Aviso → s.Db → s.Db
  volta notificado db = (drenar_outbox s db).1
  volta perdido db = db

  abbrev pub voltas : List (Volta s.Db) → s.Db → s.Db
  voltas [] db = db
  voltas (v ∷ vs) db = voltas vs (volta v.aviso (v.entre db))

  -- `run`: a drain at the start, and one for each notification.
  unfoldable pub run : List (Volta s.Db) → s.Db → s.Db
  run vs db = voltas vs (drenar_outbox s db).1
