-- ===== src/Services/Forward.antt =====
-- handler_register_tenant of apps/control_plane/src/main.rs and handler_stream_atendimentos of
-- apps/runtime_api/src/main.rs: both pass a request on to data_postgres.
use smart_core_assistant_v.Prelude.{ℕ, ◌++◌, ◌⊎◌, inl, inr, Text, txt}
use smart_core_assistant_v.Contracts.{Envelope, MessageKind, kind_number}
use smart_core_assistant_v.ErrorCore.App.{AppError}
use smart_core_assistant_v.Service.{refuse}
use smart_core_assistant_v.Transport.Error.{TransportError}
use smart_core_assistant_v.Services.Rpc.{Rpc}

module _ (rpc : Rpc) where
  open rpc use {W}

  -- The request as the client sent it, under the method of data_postgres.
  abbrev pub reescrito : Text → Envelope → Envelope
  reescrito method env = record env { kind = kind_number MessageKind.request; method = method }

  abbrev pub apos_call :
      Text → Text → Text → ℕ → Envelope → (TransportError ⊎ Envelope) × W → Envelope × W
  apos_call service own method now env (inr resp, w) =
      (record resp { method = own ++ txt "Reply" }, w)
  apos_call service own method now env (inl e, w) = (
    refuse own service now
        (AppError.internal (txt "RPC " ++ (method ++ (txt " falhou: " ++ rpc.display e)))) env,
    w,
  )

  abbrev pub apos_conectar :
      Text → Text → Text → ℕ → Envelope → (TransportError ⊎ Unit {0}) × W → Envelope × W
  apos_conectar service own method now env (inr _, w) =
      apos_call service own method now env (rpc.call (txt "data_postgres") (reescrito method env) w)
  apos_conectar service own method now env (inl e, w) = (
    refuse own service now
        (AppError.internal (txt "falha ao conectar ao data_postgres: " ++ rpc.display e)) env,
    w,
  )

  unfoldable pub handler_register_tenant : ℕ → Envelope → W → Envelope × W
  handler_register_tenant now env w =
      apos_conectar (txt "control_plane") (txt "RegisterTenant") (txt "CreateTenant") now env
        (rpc.conectar (txt "data_postgres") w)

  unfoldable pub handler_stream_atendimentos : ℕ → Envelope → W → Envelope × W
  handler_stream_atendimentos now env w =
      apos_conectar (txt "runtime_api") (txt "StreamAtendimentos") (txt "ListAtendimentos") now env
        (rpc.conectar (txt "data_postgres") w)
