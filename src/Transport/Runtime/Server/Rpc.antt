-- ===== src/Transport/Runtime/Server/Rpc.antt =====
-- One call from the client's bytes to the client's answer: `call` and `handle_connection` of
-- transport/src/runtime.rs over transport/src/framing.rs.
use smart_core_assistant_v.Prelude.{
  ℕ, ◌^◌, ◌<◌, ◌≡◌, refl, ap, false, some, List, ◌++◌, length, arith,
}
use smart_core_assistant_v.Contracts.{Envelope}
use smart_core_assistant_v.Transport.Error.{ok}
use smart_core_assistant_v.Transport.Framing.{Frame, ByteIo, ByteIoLaws, write_frame, read_frame}
use smart_core_assistant_v.Transport.Framing.RoundTrip.{read_frame-write_frame-Fits}
use smart_core_assistant_v.Transport.Codec.Interface.{Codec, CodecLaws}
use smart_core_assistant_v.Transport.Runtime.Server.Defs.{
  Handlers, Agora, get_handler, despachar, atender, atender_decodificado, resposta_de, is_ping,
}

-- The frame that `call` sends.
unfoldable pub pedido : Codec → ℕ → Envelope → Frame
pedido codec corr_id env = record { flags = 0; corr_id = corr_id; body = codec.encode env }

module _ {W : Type 0} (io : ByteIo) (io_laws : ByteIoLaws io) (codec : Codec)
    (Cabe : Envelope → Type 0) (laws : CodecLaws codec Cabe) (hs : Handlers W) where
  -- The server reads from the bytes of a call the frame that was sent, treats it as a call and not
  -- as a PING, and answers it; from the bytes of the answer the client reads a frame with the
  -- identifier of its call, whose body decodes to what the handler of the method returned for the
  -- very envelope that was sent (or to the error METHOD_NOT_FOUND, if no route has that method).
  -- The identifier must be below 2^128, both bodies shorter than 2^32 bytes, and both envelopes such
  -- that the codec reads back what it encodes.
  pub rpc_round_trip :
      (w : W) (now : Agora) (corr_id : ℕ) (env : Envelope) (more more' : List ℕ)
      → corr_id < 2 ^ 128
      → Cabe env
      → Cabe (despachar (get_handler env.method hs) w now env)
      → length (codec.encode env) < 2 ^ 32
      → length (codec.encode (despachar (get_handler env.method hs) w now env)) < 2 ^ 32
      → (answer : Frame) × (read_frame io (write_frame io (pedido codec corr_id env) ++ more)
          ≡ some (pedido codec corr_id env, more))
        × (is_ping (pedido codec corr_id env) ≡ false)
        × (atender codec hs w now (pedido codec corr_id env) ≡ some answer)
        × (read_frame io (write_frame io answer ++ more') ≡ some (answer, more'))
        × (answer.corr_id ≡ corr_id)
        × (codec.decode answer.body ≡ ok (despachar (get_handler env.method hs) w now env))
  unfolding pedido is_ping atender resposta_de
  rpc_round_trip w now corr_id env more more' id_fits cabe cabe' fits fits' =
      let reply = despachar (get_handler env.method hs) w now env in
      (
        resposta_de codec corr_id reply,
        read_frame-write_frame-Fits io io_laws (pedido codec corr_id env) more
            ((omega arith, id_fits), fits),
        refl,
        ap (atender_decodificado codec hs w now corr_id) (laws.round_trip env cabe),
        read_frame-write_frame-Fits io io_laws (resposta_de codec corr_id reply) more'
            ((ground arith, id_fits), fits'),
        refl,
        laws.round_trip reply cabe',
      )
