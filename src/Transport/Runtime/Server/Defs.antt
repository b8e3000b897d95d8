-- ===== src/Transport/Runtime/Server/Defs.antt =====
-- `handle_connection` of transport/src/runtime.rs. A frame that asks for a call is handed to a task
-- of its own; the tasks end in any order, and each puts its answer on the channel of the write task,
-- which holds 100 frames and closes when a frame cannot be written.
-- A handler is an argument. What it answers may depend on its surroundings: they are of type `W`,
-- and a task reads them when it runs.
use smart_core_assistant_v.Prelude.{
  ℕ, ◌≡◌, Bool, not, Option, none, some, List, [], ◌∷◌, ◌++◌, ◌⊎◌, ◌<◌, length, Text, txt, text_eq,
  ◌==◌, if◌then◌else◌,
}
use Prim.Native.Nat.{bit_and}
use smart_core_assistant_v.Contracts.{
  Envelope, kind_number, category_number, severity_number, MessageKind, ProtoCategory,
  ProtoSeverity,
}
use smart_core_assistant_v.Transport.Error.{Result, ok, err}
use smart_core_assistant_v.Transport.Framing.{Frame}
use smart_core_assistant_v.Transport.Framing.Flags
use smart_core_assistant_v.Transport.Codec.Interface.{Codec}

abbrev pub Handler : Type 0 → Type 0
Handler W = W → Envelope → Envelope

-- `HashMap<String, Handler>`: the last route of a method is the one that stands first.
abbrev pub Handlers : Type 0 → Type 0
Handlers W = List (Text × Handler W)

abbrev pub get_handler : {W : Type 0} → Text → Handlers W → Option (Handler W)
get_handler m [] = none
get_handler m ((k, h) ∷ rest) = if text_eq k m then some h else get_handler m rest

-- `route`
unfoldable pub route : {W : Type 0} → Text → Handler W → Handlers W → Handlers W
route m h hs = (m, h) ∷ hs

-- What `Uuid::now_v7` and the two calls of `Utc::now` return to a task.
pub record Agora : Type 0 where
  pub message_id : Text
  pub occurred_at : ℕ
  pub error_at : ℕ

unfoldable pub method_not_found : Agora → Envelope → Envelope
method_not_found now env = record {
  tenant_id = env.tenant_id;
  schema_version = env.schema_version;
  message_id = now.message_id;
  causation_id = env.message_id;
  traceparent = env.traceparent;
  occurred_at = now.occurred_at;
  kind = kind_number MessageKind.error;
  method = env.method;
  payload = [];
  error = some (record {
    code = txt "METHOD_NOT_FOUND";
    category = category_number ProtoCategory.not_found;
    severity = severity_number ProtoSeverity.error;
    message = txt "Metodo " ++ (env.method ++ txt " nao suportado por este servidor");
    user_message = txt "errors.method_not_found";
    user_message_fallback = txt "Recurso solicitado nao encontrado.";
    retryable = Bool.false;
    trace_id = env.traceparent;
    source_svc = txt "transport_runtime";
    details = [];
    occurred_at = now.error_at;
  });
}

abbrev pub despachar : {W : Type 0} → Option (Handler W) → W → Agora → Envelope → Envelope
despachar none w now env = method_not_found now env
despachar (some h) w now env = h w env

unfoldable pub resposta_de : Codec → ℕ → Envelope → Frame
resposta_de codec corr_id env = record {
  flags = if env.kind == kind_number MessageKind.error then Flags.is_error else 0;
  corr_id = corr_id;
  body = codec.encode env;
}

-- The task of one frame: a body that does not decode gets no answer.
abbrev pub atender_decodificado :
    {W : Type 0} → Codec → Handlers W → W → Agora → ℕ → Result Envelope → Option Frame
atender_decodificado codec hs w now corr_id (ok env) =
    some (resposta_de codec corr_id (despachar (get_handler env.method hs) w now env))
atender_decodificado codec hs w now corr_id (err e) = none

unfoldable pub atender : {W : Type 0} → Codec → Handlers W → W → Agora → Frame → Option Frame
atender codec hs w now f = atender_decodificado codec hs w now f.corr_id (codec.decode f.body)

unfoldable pub is_ping : Frame → Bool
is_ping f = not (bit_and f.flags Flags.ping == 0)

unfoldable pub pong_de : Frame → Frame
pong_de f = record { flags = Flags.pong; corr_id = f.corr_id; body = [] }

abbrev pub to_list {ℓ} : {A : Type ℓ} → Option A → List A
to_list none = []
to_list (some a) = a ∷ []

-- `entrada` are the frames not read yet, `tarefas` those whose task has not ended, `canal` what waits
-- on the channel and `escritas` what the write task has written. `aberto` says that the write task
-- still receives.
pub record Atendimento : Type 0 where
  pub entrada : List Frame
  pub tarefas : List Frame
  pub canal : List Frame
  pub escritas : List Frame
  pub aberto : Bool

-- `mpsc::channel::<Frame>(100)`
abbrev pub capacidade : ℕ
capacidade = 100

-- `let _ = write_tx.send(…)`, once there is room: a channel that is closed drops the frames.
unfoldable pub enviar : List Frame → Atendimento → Atendimento
enviar fs s = if s.aberto then record s { canal = s.canal ++ fs } else s

unfoldable pub receber : Frame → List Frame → Atendimento → Atendimento
receber f rest s =
    if is_ping f
    then enviar (pong_de f ∷ []) (record s { entrada = rest })
    else record s { entrada = rest; tarefas = f ∷ s.tarefas }

-- A `send` waits while the channel is open and full.
abbrev pub HaLugar : Atendimento → Type 0
HaLugar s = (s.aberto ≡ Bool.false) ⊎ (length s.canal < capacidade)

-- The loop reads a frame, a task ends, the write task writes a frame or ends with an error of the
-- writing, which drops what waits on the channel. If `panica` holds, a handler may also panic, and
-- its task ends without an answer. A handler that never returns is one whose step is not taken.
pub data Passo {W : Type 0} (codec : Codec) (hs : Handlers W) (panica : Bool)
    : Atendimento → Atendimento → Type 0 where
  recebe :
      (f : Frame) (rest : List Frame) (s : Atendimento)
      → s.entrada ≡ f ∷ rest
      → HaLugar s ⊎ (is_ping f ≡ Bool.false)
      → Passo codec hs panica s (receber f rest s)
  termina :
      (before : List Frame) (f : Frame) (after : List Frame) (w : W) (now : Agora) (s : Atendimento)
      → s.tarefas ≡ before ++ f ∷ after
      → HaLugar s
      → Passo codec hs panica s
          (enviar (to_list (atender codec hs w now f)) (record s { tarefas = before ++ after }))
  aborta :
      (before : List Frame) (f : Frame) (after : List Frame) (s : Atendimento)
      → s.tarefas ≡ before ++ f ∷ after
      → panica ≡ Bool.true
      → Passo codec hs panica s (record s { tarefas = before ++ after })
  escreve :
      (f : Frame) (rest : List Frame) (s : Atendimento)
      → s.canal ≡ f ∷ rest
      → Passo codec hs panica s (record s { canal = rest; escritas = s.escritas ++ f ∷ [] })
  quebra :
      (f : Frame) (rest : List Frame) (s : Atendimento)
      → s.canal ≡ f ∷ rest
      → Passo codec hs panica s (record s { canal = []; aberto = Bool.false })

pub data Passos {W : Type 0} (codec : Codec) (hs : Handlers W) (panica : Bool) (s : Atendimento)
    : Atendimento → Type 0 where
  here : Passos codec hs panica s s
  next :
      {t u : Atendimento}
      → Passos codec hs panica s t
      → Passo codec hs panica t u
      → Passos codec hs panica s u

abbrev pub inicio : List Frame → Atendimento
inicio fs = record { entrada = fs; tarefas = []; canal = []; escritas = []; aberto = Bool.true }
