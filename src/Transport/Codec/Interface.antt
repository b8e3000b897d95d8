-- ===== src/Transport/Codec/Interface.antt =====
-- `trait Codec` of transport/src/codec.rs, and the choice of a codec by name.
use smart_core_assistant_v.Prelude.{
  Option, none, some, List, ◌≡◌, Text, txt, text_eq, ℕ, if◌then◌else◌,
}
use smart_core_assistant_v.Contracts.{Envelope}
use smart_core_assistant_v.Transport.Error.{Result, ok}

-- `trait Codec`
pub record Codec : Type 0 where
  pub nome : Text
  pub encode : Envelope → List ℕ
  pub decode : List ℕ → Result Envelope

-- What a client and a server rely on when they use the same codec, for the envelopes that `Cabe`
-- holds of.
pub record CodecLaws (c : Codec) (Cabe : Envelope → Type 0) : Type 0 where
  pub round_trip : (env : Envelope) → Cabe env → c.decode (c.encode env) ≡ ok env

-- `from_env`, and the `match codec_name` of the server and of `conectar_cliente`, on the value of
-- the variable.
unfoldable pub escolher {ℓ} : {C : Type ℓ} → C → C → Option Text → C
escolher flatbuffers grpc none = flatbuffers
escolher flatbuffers grpc (some nome) = if text_eq nome (txt "grpc") then grpc else flatbuffers
