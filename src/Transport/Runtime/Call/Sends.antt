-- ===== src/Transport/Runtime/Call/Sends.antt =====
-- How often `MuxClient::call` of transport/src/runtime.rs sends, and what it returns.
use smart_core_assistant_v.Prelude.{
  ℕ, suc, ◌≤◌, ◌≡◌, ◌≢◌, refl, Bool, true, false, none, some, List, [], ◌∷◌, length, arith,
}
use smart_core_assistant_v.Contracts.{Envelope}
use smart_core_assistant_v.Transport.Error.{Result}
use smart_core_assistant_v.Transport.Codec.Interface.{Codec}
use smart_core_assistant_v.Transport.Runtime.Conexao.Defs.{Receptor, espera, fechado, recebido}
use smart_core_assistant_v.Transport.Runtime.Call.Defs.{
  Guardada, Rodada, Acao, reconectou, enviou, desistiu, garantir, garantir_conexao, apos_espera,
  apos_envio, apos_garantir, tentativas, call,
}

-- How many frames were handed to a connection.
unfoldable pub envios : List Acao → ℕ
envios [] = 0
envios (enviou f ∷ acts) = suc (envios acts)
envios (reconectou ∷ acts) = envios acts
envios (desistiu c ∷ acts) = envios acts

-- The receiver of the round is not closed.
abbrev pub Aberto : Rodada → Type 0
Aberto r = r.receptor ≢ fechado

module _ (codec : Codec) (env : Envelope) where
  envios-espera :
      (c : ℕ) (w : Receptor) (out : Result Envelope × List Acao)
      → envios (apos_espera codec c w out).1 ≤ envios out.1
  unfolding envios
  envios-espera c (recebido f) out = omega arith
  envios-espera c fechado out = omega arith
  envios-espera c espera out = omega arith

  espera-Aberto :
      (c : ℕ) (w : Receptor) (out : Result Envelope × List Acao)
      → w ≢ fechado
      → envios (apos_espera codec c w out).1 ≡ 0
  unfolding envios
  espera-Aberto c (recebido f) out h = refl
  espera-Aberto c fechado out h = absurd (h refl)
  espera-Aberto c espera out h = refl

  envios-envio :
      (r : Rodada) (x : Bool) (out : Result Envelope × List Acao)
      → envios (apos_envio codec env r x out).1 ≤ suc (envios out.1)
  unfolding envios
  envios-envio r true out = omega (arith, envios-espera r.corr_id r.receptor out)
  envios-envio r false out = omega arith

  envio-Aberto :
      (r : Rodada) (x : Bool) (out : Result Envelope × List Acao)
      → Aberto r
      → envios out.1 ≤ 1
      → envios (apos_envio codec env r x out).1 ≤ 1
  unfolding envios
  envio-Aberto r true out h few = omega (arith, espera-Aberto r.corr_id r.receptor out h)
  envio-Aberto r false out h few = few

  -- A round sends what follows `garantir_conexao`, or nothing.
  envios-ligado :
      (r : Rodada) (b : Bool) (out : Result Envelope × List Acao)
      → envios (apos_garantir codec env r (b, reconectou ∷ []) out).1
        ≤ envios (apos_envio codec env r r.aceita out).1
  unfolding envios
  envios-ligado r true out = omega arith
  envios-ligado r false out = omega arith

  envios-garantir :
      (r : Rodada) (g : Guardada) (out : Result Envelope × List Acao)
      → envios (apos_garantir codec env r (garantir r g) out).1
        ≤ envios (apos_envio codec env r r.aceita out).1
  envios-garantir r (some true) out = omega arith
  envios-garantir r (some false) out = envios-ligado r r.reconecta out
  envios-garantir r none out = envios-ligado r r.reconecta out

  envios-rodada :
      (r : Rodada) (out : Result Envelope × List Acao)
      → envios (apos_garantir codec env r (garantir_conexao r) out).1
        ≤ envios (apos_envio codec env r r.aceita out).1
  unfolding garantir_conexao
  envios-rodada r out = envios-garantir r r.guardada out

  tentativas-bound : (rs : List Rodada) → envios (tentativas codec env rs).1 ≤ length rs
  unfolding tentativas envios
  tentativas-bound [] = omega arith
  tentativas-bound (r ∷ rs) =
      let rest = tentativas codec env rs in
      omega (arith, envios-rodada r rest, envios-envio r r.aceita rest, tentativas-bound rs)

  -- A call hands its frame to a connection at most twice.
  pub call_sends : (r1 r2 : Rodada) → envios (call codec env r1 r2).1 ≤ 2
  unfolding call
  call_sends r1 r2 = tentativas-bound (r1 ∷ r2 ∷ [])

  -- A call hands its frame to a connection at most once, if the receiver of its first round is not
  -- found closed.
  pub call_sends_once : (r1 r2 : Rodada) → Aberto r1 → envios (call codec env r1 r2).1 ≤ 1
  unfolding call tentativas
  call_sends_once r1 r2 h =
      let rest = tentativas codec env (r2 ∷ []) in
      omega (
        arith,
        envios-rodada r1 rest,
        envio-Aberto r1 r1.aceita rest h (tentativas-bound (r2 ∷ [])),
      )
