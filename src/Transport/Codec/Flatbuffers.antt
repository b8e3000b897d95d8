-- ===== src/Transport/Codec/Flatbuffers.antt =====
-- `FlatbuffersCodec` of transport/src/codec.rs. The `flatbuffers` library and the code that it
-- generates are a parameter: `build` finishes a buffer with the table that the arguments describe,
-- and `root` gives the table behind a buffer, or the text of an error. A field of type string,
-- vector or table may be absent from a table.
use smart_core_assistant_v.Prelude.{
  ℕ, suc, ◌+◌, ◌≤◌, ◌^◌, length, arith, ◌≡◌, refl, sym, ap, ◌∙◌, Bool, Option, none, some, List, [],
  ◌∷◌, ◌++◌, ◌⊎◌, inl, inr, Text, txt,
}
use mathlib.Core.Option
use mathlib.Core.List.{append-nil, append_assoc}
use smart_core_assistant_v.Contracts.{Envelope, ErrorEnvelope, KeyValue}
use smart_core_assistant_v.Transport.Error.{TransportError, Result, ok, err}
use smart_core_assistant_v.Transport.Codec.Interface.{Codec, CodecLaws}

pub record FbKeyValue : Type 0 where
  pub key : Option Text
  pub value : Option Text

pub record FbErrorEnvelope : Type 0 where
  pub code : Option Text
  pub category : ℕ
  pub severity : ℕ
  pub message : Option Text
  pub user_message : Option Text
  pub user_message_fallback : Option Text
  pub retryable : Bool
  pub trace_id : Option Text
  pub source_svc : Option Text
  pub details : Option (List FbKeyValue)
  pub occurred_at : ℕ

pub record FbEnvelope : Type 0 where
  pub tenant_id : Option Text
  pub schema_version : ℕ
  pub message_id : Option Text
  pub causation_id : Option Text
  pub traceparent : Option Text
  pub occurred_at : ℕ
  pub kind : ℕ
  pub method : Option Text
  pub payload : Option (List ℕ)
  pub error : Option FbErrorEnvelope

-- `apparent_size` is what the verifier behind `root` counts of a finished buffer.
pub record Flatbuffers : Type 0 where
  pub apparent_size : FbEnvelope → ℕ
  pub build : FbEnvelope → List ℕ
  pub root : List ℕ → Text ⊎ FbEnvelope

abbrev pub detalhes : Option (List FbKeyValue) → ℕ
detalhes none = 0
detalhes (some kvs) = length kvs

abbrev pub do_erro : Option FbErrorEnvelope → ℕ
do_erro none = 0
do_erro (some e) = 1 + detalhes e.details

-- How many tables a buffer holds.
abbrev pub tabelas : FbEnvelope → ℕ
tabelas t = 1 + do_erro t.error

-- A finished buffer reads back as the table it was built from, within the limits that the verifier
-- has by default: 1,000,000 tables and an apparent size of 2^31 bytes.
pub record FlatbuffersLaws (fb : Flatbuffers) : Type 0 where
  pub root-build :
      (t : FbEnvelope)
      → tabelas t ≤ 1000000
      → fb.apparent_size t ≤ 2 ^ 31
      → fb.root (fb.build t) ≡ inr t

-- The loop of `encode` over `err.details`.
fb_details : List KeyValue → List FbKeyValue
fb_details [] = []
fb_details (kv ∷ rest) = (record { key = some kv.key; value = some kv.value }) ∷ fb_details rest

fb_error : ErrorEnvelope → FbErrorEnvelope
unfolding fb_details
fb_error e = record {
  code = some e.code;
  category = e.category;
  severity = e.severity;
  message = some e.message;
  user_message = some e.user_message;
  user_message_fallback = some e.user_message_fallback;
  retryable = e.retryable;
  trace_id = some e.trace_id;
  source_svc = some e.source_svc;
  details = some (fb_details e.details);
  occurred_at = e.occurred_at;
}

unfoldable pub fb_envelope : Envelope → FbEnvelope
unfolding fb_error
fb_envelope env = record {
  tenant_id = some env.tenant_id;
  schema_version = env.schema_version;
  message_id = some env.message_id;
  causation_id = some env.causation_id;
  traceparent = some env.traceparent;
  occurred_at = env.occurred_at;
  kind = env.kind;
  method = some env.method;
  payload = some env.payload;
  error = Option.map fb_error env.error;
}

-- `unwrap_or("")` and `unwrap_or_default()`
abbrev or_empty : Option (List ℕ) → List ℕ
or_empty none = []
or_empty (some s) = s

-- The loop of `decode` over the details, which pushes at the end.
details_from : List KeyValue → List FbKeyValue → List KeyValue
details_from details [] = details
details_from details (kv ∷ rest) =
    details_from (details ++ (record { key = or_empty kv.key; value = or_empty kv.value }) ∷ [])
      rest

abbrev details_of : Option (List FbKeyValue) → List KeyValue
details_of none = []
details_of (some dets) = details_from [] dets

error_of : FbErrorEnvelope → ErrorEnvelope
unfolding details_from
error_of e = record {
  code = or_empty e.code;
  category = e.category;
  severity = e.severity;
  message = or_empty e.message;
  user_message = or_empty e.user_message;
  user_message_fallback = or_empty e.user_message_fallback;
  retryable = e.retryable;
  trace_id = or_empty e.trace_id;
  source_svc = or_empty e.source_svc;
  details = details_of e.details;
  occurred_at = e.occurred_at;
}

envelope_of : FbEnvelope → Envelope
unfolding error_of
envelope_of t = record {
  tenant_id = or_empty t.tenant_id;
  schema_version = t.schema_version;
  message_id = or_empty t.message_id;
  causation_id = or_empty t.causation_id;
  traceparent = or_empty t.traceparent;
  occurred_at = t.occurred_at;
  kind = t.kind;
  method = or_empty t.method;
  payload = or_empty t.payload;
  error = Option.map error_of t.error;
}

abbrev decoded : Text ⊎ FbEnvelope → Result Envelope
decoded (inl e) = err (TransportError.codec (txt "Erro ao ler root FlatBuffers: " ++ e))
decoded (inr t) = ok (envelope_of t)

module _ (fb : Flatbuffers) where
  -- `FlatbuffersCodec`
  unfoldable pub flatbuffers_codec : Codec
  unfolding fb_envelope envelope_of
  flatbuffers_codec = record {
    nome = txt "flatbuffers";
    encode = λ env. fb.build (fb_envelope env);
    decode = λ raw. decoded (fb.root raw);
  }

-- The loop of `decode` over the list that the loop of `encode` made.
details_from-fb_details :
    (done kvs : List KeyValue) → details_from done (fb_details kvs) ≡ done ++ kvs
unfolding details_from fb_details
details_from-fb_details done [] = sym (append-nil done)
details_from-fb_details done (kv ∷ rest) =
    details_from-fb_details (done ++ kv ∷ []) rest ∙ append_assoc done (kv ∷ []) rest

error_of-fb_error : (e : ErrorEnvelope) → error_of (fb_error e) ≡ e
unfolding error_of fb_error
error_of-fb_error e = λ i. record e { details = details_from-fb_details [] e.details i }

map-error_of : (o : Option ErrorEnvelope) → Option.map error_of (Option.map fb_error o) ≡ o
map-error_of none = refl
map-error_of (some e) = ap some (error_of-fb_error e)

-- How many details an error has, and one for the error itself.
abbrev pub partes : Option ErrorEnvelope → ℕ
partes none = 0
partes (some e) = 1 + length e.details

-- The buffer of the envelope is within the limits of the verifier.
abbrev pub Cabe : Flatbuffers → Envelope → Type 0
Cabe fb env = (1 + partes env.error ≤ 1000000) × (fb.apparent_size (fb_envelope env) ≤ 2 ^ 31)

length-fb_details : (kvs : List KeyValue) → length (fb_details kvs) ≡ length kvs
unfolding fb_details
length-fb_details [] = refl
length-fb_details (kv ∷ kvs) = ap suc (length-fb_details kvs)

do_erro-fb_error : (o : Option ErrorEnvelope) → do_erro (Option.map fb_error o) ≡ partes o
unfolding fb_error
do_erro-fb_error none = refl
do_erro-fb_error (some e) = omega (arith, length-fb_details e.details)

tabelas-fb_envelope :
    (env : Envelope) → 1 + partes env.error ≤ 1000000 → tabelas (fb_envelope env) ≤ 1000000
unfolding fb_envelope
tabelas-fb_envelope env few = omega (arith, do_erro-fb_error env.error, few)

-- Decoding what the codec encoded gives the envelope back, with or without an error part and with
-- each of its details, when the envelope, its error and the details are at most 1,000,000 and the
-- apparent size of the buffer is at most 2^31 bytes.
pub flatbuffers_codec_laws :
    (fb : Flatbuffers) → FlatbuffersLaws fb → CodecLaws (flatbuffers_codec fb) (Cabe fb)
unfolding flatbuffers_codec
flatbuffers_codec_laws fb laws = record {
  round_trip = λ env fits.
      ap decoded (laws.root-build (fb_envelope env) (tabelas-fb_envelope env fits.0) fits.1) ∙ λ i.
      ok (record env { error = map-error_of env.error i });
}
