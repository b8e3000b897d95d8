-- ===== src/Transport/Bus/Events.antt =====
-- Publishing and reading events: transport/src/bus.rs. The formats of uuid, chrono and serde_json and
-- the values of redis-rs are a parameter; `inl` is the printed error.
use smart_core_assistant_v.Prelude.{
  ℕ, ◌≡◌, refl, Option, none, some, List, [], ◌∷◌, ◌++◌, ◌⊎◌, inl, inr, map, Text, txt, text_eq,
  if◌then◌else◌,
}
use smart_core_assistant_v.Contracts.{TenantEnvelope}
use smart_core_assistant_v.Transport.Error.{TransportError, Result, ok, err, ◌>>=◌}

abbrev pub stream_eventos : Text
stream_eventos = txt "events:stream"

abbrev pub stream_seguranca : Text
stream_seguranca = txt "security:stream"

abbrev pub maxlen_aprox : ℕ
maxlen_aprox = 10000

pub record EventoBruto : Type 0 where
  pub stream_id : Text
  pub tenant_id : Text
  pub event_id : Text
  pub event_type : Text
  pub timestamp : Text
  pub traceparent : Text
  pub payload : Text

pub record Formats (U D T : Type 0) : Type 1 where
  pub Value : Type 0
  pub show_uuid : U → Text
  pub parse_uuid : Text → Text ⊎ U
  pub to_rfc3339 : D → Text
  pub parse_rfc3339 : Text → Text ⊎ D
  pub to_string : T → Text ⊎ Text
  pub from_str : Text → Text ⊎ T
  pub bulk : Text → Value
  pub from_redis_value : Value → Option Text

-- What is printed or stored reads back.
pub record FormatsLaws {U D T : Type 0} (f : Formats U D T) : Type 0 where
  pub uuid : (u : U) → f.parse_uuid (f.show_uuid u) ≡ inr u
  pub date : (d : D) → f.parse_rfc3339 (f.to_rfc3339 d) ≡ inr d
  pub json : (t : T) (s : Text) → f.to_string t ≡ inr s → f.from_str s ≡ inr t
  pub value : (t : Text) → f.from_redis_value (f.bulk t) ≡ some t

-- One entry of a stream, as `XREADGROUP` gives it.
pub record Entrada (V : Type 0) : Type 0 where
  pub id : Text
  pub fields : List (Text × V)

abbrev pub get_field : {V : Type 0} → Text → List (Text × V) → Option V
get_field nome [] = none
get_field nome ((k, v) ∷ rest) = if text_eq k nome then some v else get_field nome rest

-- `map_err`
abbrev pub or_codec : {A : Type 0} → Text → Text ⊎ A → Result A
or_codec what (inl e) = err (TransportError.codec (what ++ e))
or_codec what (inr a) = ok a

abbrev pub or_bus : {A : Type 0} → Text ⊎ A → Result A
or_bus (inl e) = err (TransportError.bus e)
or_bus (inr a) = ok a

module _ {U D T : Type 0} (f : Formats U D T) where
  open f use {Value}

  unfoldable pub desserializar : EventoBruto → Result (TenantEnvelope U D T)
  desserializar e = do
    tenant_id ← or_codec (txt "tenant_id inválido: ") (f.parse_uuid e.tenant_id)
    event_id ← or_codec (txt "event_id inválido: ") (f.parse_uuid e.event_id)
    timestamp ← or_codec (txt "timestamp inválido: ") (f.parse_rfc3339 e.timestamp)
    payload ← or_codec (txt "erro desserializacao payload: ") (f.from_str e.payload)
    ok (record {
      tenant_id = tenant_id;
      event_id = event_id;
      event_type = e.event_type;
      timestamp = timestamp;
      traceparent = e.traceparent;
      payload = payload;
    })

  -- The fields of the XADD, with the payload printed.
  abbrev pub campos : TenantEnvelope U D T → Text → List (Text × Text)
  campos evento payload =
      (txt "tenant_id", f.show_uuid evento.tenant_id)
      ∷ (txt "event_id", f.show_uuid evento.event_id)
      ∷ (txt "event_type", evento.event_type)
      ∷ (txt "timestamp", f.to_rfc3339 evento.timestamp)
      ∷ (txt "traceparent", evento.traceparent)
      ∷ (txt "payload", payload)
      ∷ []

  -- `xadd` gets the name of the stream, the length to trim to and the fields, and gives the entry's
  -- identifier or an error.
  unfoldable pub publicar_evento_no_stream :
      {Db : Type 0}
      → (Text → ℕ → List (Text × Text) → Db → (Text ⊎ Text) × Db)
      → Text
      → TenantEnvelope U D T
      → Db
      → Result Text × Db
  publicar_evento_no_stream xadd stream evento db =
      elim (or_codec (txt "erro serializacao payload: ") (f.to_string evento.payload)) [
        | err e ↦ (err e, db)
        | ok payload ↦
            let (id, db') = xadd stream maxlen_aprox (campos evento payload) db in (or_bus id, db')
      ]

  abbrev pub campo_de : Option Value → Text
  campo_de none = []
  campo_de (some v) = elim (f.from_redis_value v) [ none ↦ [] | some t ↦ t ]

  -- The closure `campo`.
  abbrev pub campo : Entrada Value → Text → Text
  campo entrada nome = campo_de (get_field nome entrada.fields)

  unfoldable pub extrair_evento : Entrada Value → EventoBruto
  extrair_evento entrada = record {
    stream_id = entrada.id;
    tenant_id = campo entrada (txt "tenant_id");
    event_id = campo entrada (txt "event_id");
    event_type = campo entrada (txt "event_type");
    timestamp = campo entrada (txt "timestamp");
    traceparent = campo entrada (txt "traceparent");
    payload = campo entrada (txt "payload");
  }

  -- The loops over the streams of the reply and over their entries.
  unfoldable pub extrair_eventos : List (List (Entrada Value)) → List EventoBruto
  extrair_eventos [] = []
  extrair_eventos (ids ∷ keys) = map extrair_evento ids ++ extrair_eventos keys

  -- The entry that a stream holds for the fields of an XADD.
  abbrev pub gravada : Text → List (Text × Text) → Entrada Value
  gravada id fields = record { id = id; fields = map (λ p. (p.0, f.bulk p.1)) fields }

module _ {U D T : Type 0} (f : Formats U D T) (laws : FormatsLaws f) where
  -- A reader of the stream rebuilds the envelope that was published, all of its fields, and keeps the
  -- entry's identifier for the acknowledgement.
  pub desserializar-publicado :
      (evento : TenantEnvelope U D T) (payload id : Text)
      → f.to_string evento.payload ≡ inr payload
      → (desserializar f (extrair_evento f (gravada f id (campos f evento payload))) ≡ ok evento)
        × ((extrair_evento f (gravada f id (campos f evento payload))).stream_id ≡ id)
  unfolding desserializar extrair_evento
  desserializar-publicado evento payload id printed = (
    rw
        (
          laws.value (f.show_uuid evento.tenant_id),
          laws.value (f.show_uuid evento.event_id),
          laws.value evento.event_type,
          laws.value (f.to_rfc3339 evento.timestamp),
          laws.value evento.traceparent,
          laws.value payload,
          laws.uuid evento.tenant_id,
          laws.uuid evento.event_id,
          laws.date evento.timestamp,
          laws.json evento.payload payload printed,
        )
        refl,
    refl,
  )

  -- An entry written before events had a traceparent reads as the same event with an empty one.
  pub desserializar-antigo :
      (evento : TenantEnvelope U D T) (payload id : Text)
      → f.to_string evento.payload ≡ inr payload
      → desserializar f (
          extrair_evento f (
            gravada f id (
              (txt "tenant_id", f.show_uuid evento.tenant_id)
              ∷ (txt "event_id", f.show_uuid evento.event_id)
              ∷ (txt "event_type", evento.event_type)
              ∷ (txt "timestamp", f.to_rfc3339 evento.timestamp)
              ∷ (txt "payload", payload)
              ∷ [])))
        ≡ ok (record evento { traceparent = [] })
  unfolding desserializar extrair_evento
  desserializar-antigo evento payload id printed =
      rw
        (
          laws.value (f.show_uuid evento.tenant_id),
          laws.value (f.show_uuid evento.event_id),
          laws.value evento.event_type,
          laws.value (f.to_rfc3339 evento.timestamp),
          laws.value payload,
          laws.uuid evento.tenant_id,
          laws.uuid evento.event_id,
          laws.date evento.timestamp,
          laws.json evento.payload payload printed,
        )
        refl
