-- ===== src/Transport/Runtime/Conexao/Defs.antt =====
-- `Conexao` of transport/src/runtime.rs: many calls on one connection. The connection lives as long
-- as a call holds its `Arc`, and with it the map of pending calls; the read and the write loop run
-- beside the calls.
use smart_core_assistant_v.Prelude.{ℕ, Bool, true, false, List, [], ◌∷◌, ◌++◌, ◌==◌, if◌then◌else◌}
use smart_core_assistant_v.Transport.Error.{TransportError, Result, ok, err}
use smart_core_assistant_v.Transport.Framing.{Frame}
use smart_core_assistant_v.Transport.Framing.Flags

-- `canal` says that the write loop still takes frames from the channel, `leitura` that the read
-- loop runs. `pendentes` is the key set of the map, and `entregues c` what the oneshot that was
-- registered under `c` was sent.
pub record Conexao : Type 0 where
  pub saudavel : Bool
  pub canal : Bool
  pub leitura : Bool
  pub pendentes : ℕ → Bool
  pub fila : List Frame
  pub entregues : ℕ → List Frame

abbrev pub inserir : ℕ → (ℕ → Bool) → ℕ → Bool
inserir c p j = if j == c then true else p j

abbrev pub remover : ℕ → (ℕ → Bool) → ℕ → Bool
remover c p j = if j == c then false else p j

abbrev pub entregar : ℕ → Frame → (ℕ → List Frame) → ℕ → List Frame
entregar c f e j = if j == c then e j ++ f ∷ [] else e j

abbrev pub nova : Conexao
nova = record {
  saudavel = true;
  canal = true;
  leitura = true;
  pendentes = λ j. false;
  fila = [];
  entregues = λ j. [];
}

unfoldable pub marcar_morta : Conexao → Conexao
marcar_morta s = record s { saudavel = false }

unfoldable pub remover_pendente : ℕ → Conexao → Conexao
remover_pendente c s = record s { pendentes = remover c s.pendentes }

unfoldable pub enviar : Frame → Conexao → Result (Unit {0}) × Conexao
unfolding marcar_morta remover_pendente
enviar f s =
    let s1 = record s { pendentes = inserir f.corr_id s.pendentes } in
    if s.canal
    then (ok tt, record s1 { fila = s.fila ++ f ∷ [] })
    else (err TransportError.closed, marcar_morta (remover_pendente f.corr_id s1))

-- One frame read by the read loop.
unfoldable pub ao_ler : Frame → Conexao → Conexao
ao_ler f s =
    if s.pendentes f.corr_id
    then record s {
      pendentes = remover f.corr_id s.pendentes;
      entregues = entregar f.corr_id f s.entregues;
    }
    else s

-- The read loop ends on an error of `read_frame`.
unfoldable pub fim_leitura : Conexao → Conexao
fim_leitura s = record s { leitura = false; saudavel = false }

-- One round of the write loop: the frame that it took was written, or the write failed.
unfoldable pub ao_escrever : Bool → Conexao → Conexao
ao_escrever written s = elim s.fila [
  | [] ↦ s
  | f ∷ rest ↦
      if written
      then record s { fila = rest }
      else record s { fila = rest; canal = false; saudavel = false }
]

-- One round of `iniciar_keepalive` behind the test of health: the PING, and then either its PONG or
-- the end of the wait. The answer says whether the loop goes on.
unfoldable pub ping_de : ℕ → Frame
ping_de corr_id = record { flags = Flags.ping; corr_id = corr_id; body = [] }

unfoldable pub apos_ping : Bool → ℕ → Conexao → Bool × Conexao
unfolding marcar_morta remover_pendente
apos_ping true corr_id s = (true, s)
apos_ping false corr_id s = (false, marcar_morta (remover_pendente corr_id s))

-- What the call that waits on the receiver of `c` sees.
pub data Receptor : Type 0 where
  espera fechado : Receptor
  recebido : Frame → Receptor

unfoldable pub receptor : ℕ → Conexao → Receptor
receptor c s = elim (s.entregues c) [
  | f ∷ _ ↦ recebido f
  | [] ↦ if s.pendentes c then espera else fechado
]
