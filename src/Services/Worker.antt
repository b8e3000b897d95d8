-- ===== src/Services/Worker.antt =====
-- apps/worker/src/main.rs.
use smart_core_assistant_v.Prelude.{
  none, some, [], ◌∷◌, ◌++◌, ◌⊎◌, inl, inr, Text, txt, text_eq, ◌==◌, if◌then◌else◌,
}
use smart_core_assistant_v.Prelude.Steps.{Step, pure, raise, map_err, ◌>>=◌, ◌>>◌}
use smart_core_assistant_v.Contracts.{Envelope, TenantEnvelope, MessageKind, kind_number}
use smart_core_assistant_v.Redis.Server.{nonneg}
use smart_core_assistant_v.Json.{JsonValue, unwrap_or, str_field}
use smart_core_assistant_v.Transport.Error.{TransportError, Result, ok, err}
use smart_core_assistant_v.Transport.Bus.Events.{EventoBruto, Formats, desserializar}
use smart_core_assistant_v.Services.Rpc.{Rpc, Agora, pedido}

-- An `anyhow::Error`: that of the transport or a text of its own.
abbrev pub Falha : Type 0
Falha = TransportError ⊎ Text

module _ {U D : Type 0} (json : JsonValue) (formats : Formats U D json.J) (rpc : Rpc) where
  open rpc use {W}

  abbrev pub persist_payload : TenantEnvelope U D json.J → json.J
  persist_payload envelope = json.object (
      (txt "atendimento_id", json.integer (nonneg 1))
      ∷ (
        txt "content",
        json.string (unwrap_or [] (str_field json (txt "content") envelope.payload)),
      )
      ∷ (txt "tipo", json.string (txt "texto"))
      ∷ (
        txt "sender_id",
        json.string (unwrap_or (txt "externo") (str_field json (txt "sender_id") envelope.payload)),
      )
      ∷ [])

  -- The trace of the event goes on in the call.
  unfoldable pub pedido_persistencia : Agora → TenantEnvelope U D json.J → Envelope
  pedido_persistencia agora envelope =
      pedido agora (formats.show_uuid envelope.tenant_id) (formats.show_uuid envelope.event_id)
        envelope.traceparent (txt "PersistMessage") (json.to_vec (persist_payload envelope))

  abbrev pub mensagem_erro : Envelope → Text
  mensagem_erro resp = elim resp.error [
    | none ↦ txt "Erro desconhecido na persistência RPC do data_postgres."
    | some e ↦ txt "Falha na persistência da mensagem via data_postgres RPC: " ++ e.message
  ]

  abbrev pub concluir : Envelope → Step W Falha (Unit {0})
  concluir resp =
      if resp.kind == kind_number MessageKind.error
      then raise (inr (mensagem_erro resp))
      else pure tt

  abbrev pub persistir_evento : Agora → TenantEnvelope U D json.J → Step W Falha (Unit {0})
  persistir_evento agora envelope =
      map_err inl (rpc.conectar (txt "data_postgres"))
      >> (map_err inl (rpc.call (txt "data_postgres") (pedido_persistencia agora envelope))
          >>= concluir)

  abbrev pub lido : Agora → Result (TenantEnvelope U D json.J) → Step W Falha (Unit {0})
  lido agora (ok envelope) = persistir_evento agora envelope
  lido agora (err e) = raise (inl e)

  unfoldable pub processar_mensagem_recebida : Agora → EventoBruto → Step W Falha (Unit {0})
  processar_mensagem_recebida agora evt = lido agora (desserializar formats evt)

  -- The closure that the consumer runs: an error is logged, and the event counts as handled.
  unfoldable pub tratar : Agora → EventoBruto → W → W
  tratar agora evt w =
      if text_eq evt.event_type (txt "message.received")
      then (processar_mensagem_recebida agora evt w).1
      else w
