-- ===== src/Services/Gateway.antt =====
-- apps/messaging_gateway/src/main.rs.
use smart_core_assistant_v.Prelude.{ℕ, Option, List, [], ◌∷◌, ◌⊎◌, Text, txt}
use smart_core_assistant_v.Contracts.{Envelope, TenantEnvelope, novo, com_traceparent}
use smart_core_assistant_v.ErrorCore.App.{AppError}
use smart_core_assistant_v.Service.{reply, refuse}
use smart_core_assistant_v.Redis.Server.{I64}
use smart_core_assistant_v.Json.{JsonValue, unwrap_or, str_field, body}
use smart_core_assistant_v.Transport.Error.{TransportError, Result, ok, err}
use smart_core_assistant_v.Transport.Bus.Events.{Formats, publicar_evento_no_stream, stream_eventos}

-- What `Uuid::now_v7` and the calls of `Utc::now` return to a webhook.
pub record Recebimento (U D : Type 0) : Type 0 where
  pub event_id : U
  pub agora : D
  pub millis : I64
  pub now : ℕ

module _ {U D : Type 0} (json : JsonValue) (parse_str : Text → Option U) (nil : U) where
  -- The event of a webhook.
  unfoldable pub evento_recebido : Recebimento U D → Envelope → TenantEnvelope U D json.J
  evento_recebido r env =
      let j = body json env.payload in
      com_traceparent
        (novo r.event_id r.agora (unwrap_or nil (parse_str env.tenant_id)) (txt "message.received")
          (json.object (
            (
              txt "sender_id",
              json.string (unwrap_or (txt "externo") (str_field json (txt "sender_id") j)),
            )
            ∷ (txt "content", json.string (unwrap_or [] (str_field json (txt "content") j)))
            ∷ (txt "timestamp", json.integer r.millis)
            ∷ [])))
        env.traceparent

module _ {U D W : Type 0} (json : JsonValue) (formats : Formats U D json.J)
    (parse_str : Text → Option U) (nil : U) (display : TransportError → Text)
    (xadd : Text → ℕ → List (Text × Text) → W → (Text ⊎ Text) × W) where
  abbrev pub responder : Recebimento U D → Envelope → Result Text × W → Envelope × W
  responder r env (ok id, w) = (
    reply (txt "ReceiveWebhook")
        (json.to_vec (
          json.object (
            (txt "status", json.string (txt "success"))
            ∷ (txt "event_id", json.string (formats.show_uuid r.event_id))
            ∷ [])))
        env,
    w,
  )
  responder r env (err e, w) = (
    refuse (txt "ReceiveWebhook") (txt "messaging_gateway") r.now (AppError.cache (display e)) env,
    w,
  )

  unfoldable pub handler_receive_webhook : Recebimento U D → Envelope → W → Envelope × W
  handler_receive_webhook r env w = responder r env (
      publicar_evento_no_stream formats xadd stream_eventos
        (evento_recebido json parse_str nil r env) w)
