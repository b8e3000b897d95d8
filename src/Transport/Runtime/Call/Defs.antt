-- ===== src/Transport/Runtime/Call/Defs.antt =====
-- `MuxClient::call` and `garantir_conexao` of transport/src/runtime.rs.
use smart_core_assistant_v.Prelude.{ℕ, Bool, true, false, Option, none, some, List, [], ◌∷◌}
use smart_core_assistant_v.Contracts.{Envelope}
use smart_core_assistant_v.Transport.Error.{TransportError, Result, err}
use smart_core_assistant_v.Transport.Framing.{Frame}
use smart_core_assistant_v.Transport.Codec.Interface.{Codec}
use smart_core_assistant_v.Transport.Runtime.Conexao.Defs.{Receptor, espera, fechado, recebido}
use smart_core_assistant_v.Transport.Runtime.Server.Rpc.{pedido}

-- The connection that the client holds, if any: whether it is sound.
abbrev pub Guardada : Type 0
Guardada = Option Bool

-- What happens in one round: the connection held when it starts (none after an invalidation, unless
-- another call of the client has dialled since), whether dialling with backoff gives a connection, whether the
-- connection used still takes frames, the identifier of the call, and what its receiver shows at the
-- deadline at the latest.
pub record Rodada : Type 0 where
  pub guardada : Guardada
  pub reconecta : Bool
  pub aceita : Bool
  pub corr_id : ℕ
  pub receptor : Receptor

-- What the client does: dial, hand a frame to a connection that takes it, give up an identifier.
pub data Acao : Type 0 where
  reconectou : Acao
  enviou : Frame → Acao
  desistiu : ℕ → Acao

-- The connection to use: the one held if it is sound, or a new one; `false` is an error.
abbrev pub garantir : Rodada → Guardada → Bool × List Acao
garantir r (some true) = (true, [])
garantir r (some false) = (r.reconecta, reconectou ∷ [])
garantir r none = (r.reconecta, reconectou ∷ [])

unfoldable pub garantir_conexao : Rodada → Bool × List Acao
garantir_conexao r = garantir r r.guardada

abbrev pub anotar : List Acao → Result Envelope × List Acao → Result Envelope × List Acao
anotar [] (x, acts) = (x, acts)
anotar (a ∷ before) out = let (x, acts) = anotar before out in (x, a ∷ acts)

-- The `match` on the timeout; `de_novo` is the next round, after `invalidar_conexao`.
abbrev pub apos_espera :
    Codec → ℕ → Receptor → Result Envelope × List Acao → Result Envelope × List Acao
apos_espera codec corr_id (recebido f) de_novo = (codec.decode f.body, [])
apos_espera codec corr_id fechado de_novo = de_novo
apos_espera codec corr_id espera de_novo = (err TransportError.timeout, desistiu corr_id ∷ [])

-- The `match` on `enviar`.
abbrev pub apos_envio :
    Codec → Envelope → Rodada → Bool → Result Envelope × List Acao → Result Envelope × List Acao
apos_envio codec env r false de_novo = de_novo
apos_envio codec env r true de_novo =
    anotar (enviou (pedido codec r.corr_id env) ∷ [])
      (apos_espera codec r.corr_id r.receptor de_novo)

abbrev pub apos_garantir :
    Codec
    → Envelope
    → Rodada
    → Bool × List Acao
    → Result Envelope × List Acao
    → Result Envelope × List Acao
apos_garantir codec env r (false, acts) de_novo = anotar acts (err TransportError.closed, [])
apos_garantir codec env r (true, acts) de_novo =
    anotar acts (apos_envio codec env r r.aceita de_novo)

-- The rounds left.
unfoldable pub tentativas : Codec → Envelope → List Rodada → Result Envelope × List Acao
tentativas codec env [] = (err TransportError.closed, [])
tentativas codec env (r ∷ rs) =
    apos_garantir codec env r (garantir_conexao r) (tentativas codec env rs)

-- `call`: two rounds.
unfoldable pub call : Codec → Envelope → Rodada → Rodada → Result Envelope × List Acao
call codec env r1 r2 = tentativas codec env (r1 ∷ r2 ∷ [])
