-- ===== src/Transport/Tests/Calls.antt =====
-- The theorems on clients and servers at concrete configurations, connections and calls.
use smart_core_assistant_v.Prelude.{
  ℕ, ◌≡◌, refl, ◌+◌, ◌≤◌, ◌<◌, ◌^◌, ap, inl, inr, true, false, ◌==◌, Option, none, some, List, [],
  ◌∷◌, ◌++◌, length, Text, txt, text_eq, arith, if◌then◌else◌,
}
use smart_core_assistant_v.Contracts.{Envelope}
use smart_core_assistant_v.Transport.Error.{ok}
use smart_core_assistant_v.Transport.Framing.{Frame, write_frame, read_frame}
use smart_core_assistant_v.Transport.Framing.BigEndian.{big_endian, big_endian_laws}
use smart_core_assistant_v.Transport.Codec.Interface.{Codec}
use smart_core_assistant_v.Transport.Codec.Flatbuffers.{
  Cabe, flatbuffers_codec, flatbuffers_codec_laws, fb_envelope,
}
use smart_core_assistant_v.Transport.Runtime.Endpoint.{Endpoint, conectar_cliente}
use smart_core_assistant_v.Transport.Runtime.Backoff.{
  reconectar_com_backoff, primeira, Spaced, reconectar_com_backoff_lem,
}
use smart_core_assistant_v.Transport.Runtime.Conexao.Defs
use smart_core_assistant_v.Transport.Runtime.Conexao.Defs.{
  Conexao, nova, fim_leitura, marcar_morta, receptor, espera,
}
use smart_core_assistant_v.Transport.Runtime.Conexao.Pending.{Step, Reach, lost_call_waits}
use smart_core_assistant_v.Transport.Runtime.Server.Defs.{
  Handlers, Agora, Atendimento, HaLugar, Passo, Passos, inicio, route, get_handler, despachar,
  resposta_de, atender, atender_decodificado, is_ping, pong_de, to_list, enviar, receber,
}
use smart_core_assistant_v.Transport.Runtime.Server.Quiescence.{
  conta, devidas, each_call_answered_once, answers_never_exceed,
}
use smart_core_assistant_v.Transport.Runtime.Server.Rpc.{pedido, rpc_round_trip}
use smart_core_assistant_v.Transport.Tests.Memory.{tables, tables_laws}
use smart_core_assistant_v.Transport.Tests.Frames.{hello}

-- An address is its text.
abbrev address : Text → Option Text
address t = some t

abbrev env_var : Text → Option Text
env_var k =
    if text_eq k (txt "SMARTCORE_AUTH_ENDPOINT") then some (txt "tcp://10.0.0.1:7000") else none

auth_client :
    conectar_cliente address env_var {C = ℕ} 1 2 (txt "auth")
    ≡ some (Endpoint.tcp (txt "10.0.0.1:7000"), 1)
unfolding conectar_cliente
auth_client = refl

-- The third attempt succeeds.
abbrev third : ℕ → Option ℕ
third t = if t == 3 then some 30 else none

reconectar_com_backoff_example :
    ((reconectar_com_backoff third (λ t. 777)).0 ≡ primeira third (λ t. 777) 6 1)
    × Spaced third (λ t. 777) 100 (reconectar_com_backoff third (λ t. 777)).1
    × (length (reconectar_com_backoff third (λ t. 777)).1 ≤ 5)
reconectar_com_backoff_example = reconectar_com_backoff_lem third (λ t. 777)

sent_hello : (Defs.enviar hello nova).0 ≡ ok tt
unfolding Defs.enviar
sent_hello = refl

abbrev waiting : Conexao
waiting = (Defs.enviar hello nova).1

waiting-reads : waiting.leitura ≡ true
unfolding Defs.enviar
waiting-reads = refl

pending : waiting.pendentes 77 ≡ true
unfolding Defs.enviar
pending = refl

nothing_yet : waiting.entregues 77 ≡ []
unfolding Defs.enviar
nothing_yet = refl

lost_call_waits_example : receptor 77 (marcar_morta (fim_leitura waiting)) ≡ espera
lost_call_waits_example =
    lost_call_waits 77 waiting (marcar_morta (fim_leitura waiting)) pending nothing_yet
      (Reach.next Reach.here (Step.morre (fim_leitura waiting)))

abbrev codec : Codec
codec = flatbuffers_codec tables

abbrev request : Envelope
request = record {
  tenant_id = txt "t";
  schema_version = 1;
  message_id = txt "m";
  causation_id = [];
  traceparent = [];
  occurred_at = 5;
  kind = 2;
  method = txt "echo";
  payload = 1 ∷ 2 ∷ [];
  error = none;
}

abbrev echo : Handlers ℕ
echo = route (txt "echo") (λ n env. record env { kind = 3; payload = n ∷ env.payload }) []

abbrev now : Agora
now = record { message_id = txt "n"; occurred_at = 6; error_at = 7 }

request_fits : length (codec.encode request) < 2 ^ 32
unfolding flatbuffers_codec fb_envelope
request_fits = omega arith

reply_fits :
    length (codec.encode (despachar (get_handler (txt "echo") echo) 9 now request)) < 2 ^ 32
unfolding flatbuffers_codec fb_envelope route
reply_fits = omega arith

request-Cabe : Cabe tables request
unfolding fb_envelope
request-Cabe = (omega arith, omega arith)

reply-Cabe : Cabe tables (despachar (get_handler (txt "echo") echo) 9 now request)
unfolding fb_envelope route
reply-Cabe = (omega arith, omega arith)

rpc_round_trip_example :
    (answer : Frame) × (read_frame big_endian
        (write_frame big_endian (pedido codec 77 request) ++ [])
      ≡ some (pedido codec 77 request, []))
    × (is_ping (pedido codec 77 request) ≡ false)
    × (atender codec echo 9 now (pedido codec 77 request) ≡ some answer)
    × (read_frame big_endian (write_frame big_endian answer ++ []) ≡ some (answer, []))
    × (answer.corr_id ≡ 77)
    × (codec.decode answer.body ≡ ok (despachar (get_handler (txt "echo") echo) 9 now request))
rpc_round_trip_example =
    rpc_round_trip big_endian big_endian_laws codec (Cabe tables)
      (flatbuffers_codec_laws tables tables_laws) echo 9 now 77 request [] [] (omega arith)
      request-Cabe reply-Cabe request_fits reply_fits

abbrev two_frames : List Frame
two_frames = (record { flags = 16; corr_id = 5; body = [] }) ∷ pedido codec 77 request ∷ []

abbrev at_start : Atendimento
at_start = inicio two_frames

abbrev ping_frame : Frame
ping_frame = record { flags = 16; corr_id = 5; body = [] }

abbrev ping_read : Atendimento
ping_read = receber ping_frame (pedido codec 77 request ∷ []) at_start

abbrev call_read : Atendimento
call_read = receber (pedido codec 77 request) [] ping_read

abbrev answers : List Frame
answers = to_list (atender codec echo 9 now (pedido codec 77 request))

abbrev task_ended : Atendimento
task_ended = enviar answers (record call_read { tarefas = [] })

abbrev pong_written : Atendimento
pong_written = record task_ended {
  canal = answers;
  escritas = task_ended.escritas ++ pong_de ping_frame ∷ [];
}

abbrev answer_frame : Frame
answer_frame = resposta_de codec 77 (despachar (get_handler (txt "echo") echo) 9 now request)

abbrev all_written : Atendimento
all_written = record pong_written {
  canal = [];
  escritas = pong_written.escritas ++ answer_frame ∷ [];
}

room : HaLugar at_start
room = inr (omega arith)

not_ping : is_ping (pedido codec 77 request) ≡ false
unfolding is_ping pedido
not_ping = refl

next_frame : ping_read.entrada ≡ pedido codec 77 request ∷ []
unfolding receber enviar is_ping
next_frame = refl

one_task : call_read.tarefas ≡ [] ++ pedido codec 77 request ∷ []
unfolding receber enviar is_ping pedido
one_task = refl

room_left : HaLugar call_read
unfolding receber enviar is_ping pedido
room_left = inr (omega arith)

pong_waits : task_ended.canal ≡ pong_de ping_frame ∷ answers
unfolding receber enviar is_ping pedido
pong_waits = refl

decoded_request : codec.decode (codec.encode request) ≡ ok request
decoded_request = (flatbuffers_codec_laws tables tables_laws).round_trip request request-Cabe

answer_waits : pong_written.canal ≡ answer_frame ∷ []
unfolding atender pedido
answer_waits = ap (λ r. to_list (atender_decodificado codec echo 9 now 77 r)) decoded_request

served : Passos codec echo false at_start all_written
served =
    Passos.next
      (Passos.next
        (Passos.next
          (Passos.next
            (Passos.next Passos.here
              (Passo.recebe ping_frame (pedido codec 77 request ∷ []) at_start refl (inl room)))
            (Passo.recebe (pedido codec 77 request) [] ping_read next_frame (inr not_ping)))
          (Passo.termina [] (pedido codec 77 request) [] 9 now call_read one_task room_left))
        (Passo.escreve (pong_de ping_frame) answers task_ended pong_waits))
      (Passo.escreve answer_frame [] pong_written answer_waits)

still_open : all_written.aberto ≡ true
unfolding receber enviar is_ping pedido
still_open = refl

all_read : all_written.entrada ≡ []
unfolding receber enviar is_ping pedido
all_read = refl

all_ended : all_written.tarefas ≡ []
unfolding receber enviar is_ping pedido
all_ended = refl

each_call_answered_once_example : conta 77 all_written.escritas ≡ devidas codec 77 two_frames
each_call_answered_once_example =
    each_call_answered_once codec echo two_frames all_written 77 served still_open all_read
      all_ended refl

answers_never_exceed_example :
    conta 77 all_written.escritas + conta 77 all_written.canal ≤ devidas codec 77 two_frames
answers_never_exceed_example =
    answers_never_exceed codec echo false two_frames all_written 77 served
