-- ===== src/Outbox/Delivery.antt =====
-- What the relay of apps/data_postgres/src/outbox_relay.rs delivers.
use smart_core_assistant_v.Prelude.{
  ◌≡◌, refl, ap, ◌∙◌, true, false, Option, none, some, List, [], ◌∷◌, ◌++◌, All, Text,
}
use mathlib.Core.List.{Memᴰ}
use smart_core_assistant_v.Contracts.{TenantEnvelope}
use smart_core_assistant_v.Outbox.Defs.{
  OutboxRow, Servicos, envelope_de, publicar_linhas, drenar_outbox, Aviso, Volta, volta, voltas,
  run, notificado, perdido,
}

module _ {U D J : Type 0} (s : Servicos U D J) where
  open s use {Db, fluxo, publicado}

  abbrev pub juntar :
      Option (TenantEnvelope U D J) → List (TenantEnvelope U D J) → List (TenantEnvelope U D J)
  juntar none es = es
  juntar (some e) es = e ∷ es

  -- The envelopes of the rows that have one, in the order of the rows.
  abbrev pub envelopes : List (OutboxRow U D) → List (TenantEnvelope U D J)
  envelopes [] = []
  envelopes (row ∷ rows) = juntar (envelope_de s row) (envelopes rows)

  -- What the envelope of a row says: every field is that of the row, and the payload is the row's
  -- bytes read as UTF-8 and as JSON.
  pub record EnvelopeDe (row : OutboxRow U D) (e : TenantEnvelope U D J) : Type 0 where
    pub tenant_id : e.tenant_id ≡ row.tenant_id
    pub event_id : e.event_id ≡ row.id
    pub event_type : e.event_type ≡ row.event_type
    pub timestamp : e.timestamp ≡ row.occurred_at
    pub traceparent : e.traceparent ≡ row.traceparent
    pub payload : (t : Text) × (s.from_utf8 row.payload ≡ some t) × (s.from_str t ≡ some e.payload)

  -- One of the rows has the id `j`, and its envelope is in the stream.
  abbrev pub Entregue : List (OutboxRow U D) → Db → U → Type 0
  Entregue rows db j =
      (row : OutboxRow U D) × (e : TenantEnvelope U D J) × Memᴰ row rows
      × (row.id ≡ j)
      × EnvelopeDe row e
      × (xs ys : List (TenantEnvelope U D J)) × (fluxo db ≡ xs ++ e ∷ ys)

  -- A run of the loop over the rows, from the data before it to the data after it.
  pub data Corrida : List (OutboxRow U D) → Db → Db → Type 0 where
    fim : (a : Db) → Corrida [] a a
    pula :
        {row : OutboxRow U D} {rows : List (OutboxRow U D)} {a b : Db}
        → envelope_de s row ≡ none
        → Corrida rows a b
        → Corrida (row ∷ rows) a b
    publica :
        {row : OutboxRow U D} {rows : List (OutboxRow U D)} {a b c d : Db}
        (e : TenantEnvelope U D J)
        → envelope_de s row ≡ some e
        → s.publicar_evento e a ≡ (true, b)
        → s.update row.id b ≡ (true, c)
        → Corrida rows c d
        → Corrida (row ∷ rows) a d
    erro :
        {row : OutboxRow U D} {rows : List (OutboxRow U D)} {a b c : Db} (e : TenantEnvelope U D J)
        → envelope_de s row ≡ some e
        → s.publicar_evento e a ≡ (true, b)
        → s.update row.id b ≡ (false, c)
        → Corrida (row ∷ rows) a c
    para :
        {row : OutboxRow U D} {rows : List (OutboxRow U D)} {a b : Db} (e : TenantEnvelope U D J)
        → envelope_de s row ≡ some e
        → s.publicar_evento e a ≡ (false, b)
        → Corrida (row ∷ rows) a b

module _ {U D J : Type 0} (s : Servicos U D J) where
  open s use {Db, fluxo, publicado}

  abbrev pub SemEnvelope : OutboxRow U D → Type 0
  SemEnvelope row = envelope_de s row ≡ none

  publicar_linhas-invalid :
      (rows : List (OutboxRow U D)) (a : Db)
      → All SemEnvelope rows
      → publicar_linhas s rows a ≡ (true, a)
  unfolding publicar_linhas
  publicar_linhas-invalid [] a h = refl
  publicar_linhas-invalid (row ∷ rows) a (bad, h) =
      rw (bad, publicar_linhas) (publicar_linhas-invalid rows a h)

  drenar-invalid :
      (rows : List (OutboxRow U D)) (a : Db)
      → All SemEnvelope rows
      → s.fetch a ≡ some rows
      → drenar_outbox s a ≡ (true, a)
  unfolding drenar_outbox
  drenar-invalid rows a h e = rw e (publicar_linhas-invalid rows a h)

  volta-invalid :
      (rows : List (OutboxRow U D)) (w : Aviso) (a : Db)
      → All SemEnvelope rows
      → s.fetch a ≡ some rows
      → s.fetch (volta s w a) ≡ some rows
  unfolding volta
  volta-invalid rows notificado a h e = ap (λ p. s.fetch p.1) (drenar-invalid rows a h e) ∙ e
  volta-invalid rows perdido a h e = e

  voltas-invalid :
      (rows : List (OutboxRow U D)) (vs : List (Volta Db)) (a : Db)
      → All SemEnvelope rows
      → All (λ v. (d : Db) → s.fetch d ≡ some rows → s.fetch (v.entre d) ≡ some rows) vs
      → s.fetch a ≡ some rows
      → s.fetch (voltas s vs a) ≡ some rows
  voltas-invalid rows [] a h keeps e = e
  voltas-invalid rows (v ∷ vs) a h (keep, keeps) e =
      voltas-invalid rows vs (volta s v.aviso (v.entre a)) h keeps
        (volta-invalid rows v.aviso (v.entre a) h (keep a e))

  -- If every row of the SELECT has a payload that is not UTF-8 or not JSON, and what happens
  -- between the drains does not change what the SELECT gives, the relay is stuck: however often it
  -- is notified, it fetches the same rows, and a drain then changes nothing and reports no error.
  -- So rows behind them are not published, since the SELECT stops at 100 rows.
  pub invalid_rows_block :
      (rows : List (OutboxRow U D)) (vs : List (Volta Db)) (a : Db)
      → All SemEnvelope rows
      → All (λ v. (d : Db) → s.fetch d ≡ some rows → s.fetch (v.entre d) ≡ some rows) vs
      → s.fetch a ≡ some rows
      → (s.fetch (run s vs a) ≡ some rows) × (drenar_outbox s (run s vs a) ≡ (true, run s vs a))
  unfolding run
  invalid_rows_block rows vs a h keeps e =
      let first = ap (λ p. s.fetch p.1) (drenar-invalid rows a h e) ∙ e in
      let last = voltas-invalid rows vs (drenar_outbox s a).1 h keeps first in
      (last, drenar-invalid rows (run s vs a) h last)
