-- ===== src/DataRedis/Tests.antt =====
-- The theorems on data_redis at the server in memory. In the JSON of the examples every field of a
-- payload is the whole payload.
use smart_core_assistant_v.Prelude.{
  ℕ, ◌≡◌, refl, sym, ap, ◌∙◌, Bool, false, Option, none, some, List, [], ◌∷◌, ◌++◌, ◌⊎◌, inl, inr,
  Text, txt, ◌==◌, if◌then◌else◌,
}
use smart_core_assistant_v.Contracts.{Envelope, ErrorEnvelope}
use smart_core_assistant_v.ErrorCore.Code.{ErrorCode, display_code}
use smart_core_assistant_v.ErrorCore.App
use smart_core_assistant_v.Redis.Server.{I64, nonneg, neg}
use smart_core_assistant_v.Redis.Keys.{chave_refresh, chave_refresh_familia}
use smart_core_assistant_v.Redis.Errors.{RedisError, to_app_error}
use smart_core_assistant_v.Redis.Exec.{err}
use smart_core_assistant_v.Redis.Tokens.{
  RegistroRefresh, Serde, armazenar, ler, marcar, por_uso, rotacionar, apagar, revogar_familia,
  validar_e_rotacionar,
}
use smart_core_assistant_v.Redis.Records.{SerdeLaws, Guarda}
use smart_core_assistant_v.Redis.Rotation.{rotacionado_de}
use smart_core_assistant_v.Redis.Memory.{
  Memory, memory, memory_laws, empty, print_registro, read_registro, registro, read-print,
}
use smart_core_assistant_v.DataRedis.Json.{Json}
use smart_core_assistant_v.DataRedis.Handlers.{
  Metodo, rotear, resposta, handler_validate_and_rotate, token_hash_de,
}
use smart_core_assistant_v.DataRedis.Replies.{
  Answers, rotear-Answers, reuse_answered_as_missing, reply_means_rotated,
}

abbrev Registro : Type 0
Registro = RegistroRefresh ℕ I64

abbrev signed : I64 → (ℕ → Text) → Text
signed (nonneg n) f = 0 ∷ f n
signed (neg n) f = 1 ∷ f n

abbrev print : Registro → Text
print reg =
    signed reg.user_id
      (λ n. print_registro (registro n reg.rotacionado reg.tenant_id reg.family_id))

abbrev with_sign : ℕ → Text ⊎ RegistroRefresh ℕ ℕ → Text ⊎ Registro
with_sign s (inl e) = inl e
with_sign s (inr reg) = inr (record {
  user_id = if s == 0 then nonneg reg.user_id else neg reg.user_id;
  tenant_id = reg.tenant_id;
  family_id = reg.family_id;
  rotacionado = reg.rotacionado;
})

abbrev read : Text → Text ⊎ Registro
read [] = inl (txt "EOF")
read (s ∷ t) = with_sign s (read_registro t)

abbrev registros : Serde Registro
registros = record { to_string = λ reg. inr (print reg); from_str = read }

reads_back :
    (u : I64) (b : Bool) (t : Option ℕ) (f : Text)
    → let reg : Registro = record { user_id = u; tenant_id = t; family_id = f; rotacionado = b } in
      read (print reg) ≡ inr reg
reads_back (nonneg n) b t f = ap (with_sign 0) (read-print n b t f)
reads_back (neg n) b t f = ap (with_sign 1) (read-print n b t f)

registros_laws : SerdeLaws registros
registros_laws = record {
  round_trip = λ a s e.
      let at : print a ≡ s = cc in
      ap read (sym at) ∙ reads_back a.user_id a.rotacionado a.tenant_id a.family_id;
}

abbrev listas : Serde (List I64)
listas = record { to_string = λ xs. inl (txt "unused"); from_str = λ t. inl (txt "unused") }

abbrev json : Json ℕ
json = record {
  J = Text;
  from_slice = some;
  empty = [];
  get = λ k j. some j;
  as_str = some;
  as_i64 = λ j. none;
  as_u64 = λ j. none;
  as_array = λ j. none;
  object = λ k j. k ++ j;
  string = λ t. t;
  boolean = λ b. [];
  numbers = λ xs. [];
  to_value = print;
  to_vec = λ j. j;
  parse_str = λ t. none;
  nil = 0;
}

abbrev show : ℕ → Text
show n = n ∷ []

abbrev show_i : I64 → Text
show_i (nonneg n) = n ∷ []
show_i (neg n) = n ∷ []

abbrev request : Envelope
request = record {
  tenant_id = [];
  schema_version = 1;
  message_id = txt "m";
  causation_id = [];
  traceparent = txt "trace";
  occurred_at = 5;
  kind = 2;
  method = txt "ValidateAndRotate";
  payload = txt "h";
  error = none;
}

abbrev fresh : Registro
fresh = record { user_id = nonneg 7; tenant_id = none; family_id = txt "fam"; rotacionado = false }

abbrev stored : Memory
stored = (armazenar memory registros (txt "h") (nonneg 7) none (txt "fam") 60 empty).1

abbrev out : Envelope
out =
    (rotear memory registros listas json show show_i Metodo.validate_and_rotate 9 request stored).0

abbrev rotated : Memory
rotated =
    (rotear memory registros listas json show show_i Metodo.validate_and_rotate 9 request stored).1

abbrev revoked : Memory
revoked = (validar_e_rotacionar memory registros (txt "h") rotated).1

out-reply : out.kind ≡ 3
unfolding rotear handler_validate_and_rotate resposta armazenar validar_e_rotacionar ler rotacionar
    por_uso marcar chave_refresh chave_refresh_familia
out-reply = refl

reuse_run :
    validar_e_rotacionar memory registros
      (token_hash_de memory registros listas json show show_i request)
      rotated
    ≡ (err RedisError.token_reuse, revoked)
unfolding rotear handler_validate_and_rotate resposta armazenar validar_e_rotacionar ler rotacionar
    por_uso marcar chave_refresh chave_refresh_familia revogar_familia apagar
reuse_run = refl

rotear-Answers_example :
    Answers Metodo.block_token request
      (rotear memory registros listas json show show_i Metodo.block_token 9 request stored).0
rotear-Answers_example =
    rotear-Answers memory registros listas json show show_i Metodo.block_token 9 request stored

reuse_answered_as_missing_example :
    ((e : ErrorEnvelope) × ((rotear memory registros listas json show show_i
          Metodo.validate_and_rotate 9 request rotated).0.error
        ≡ some e)
      × (e.code ≡ display_code ErrorCode.cache_key_not_found)
      × (e.retryable ≡ false))
    × (App.code (to_app_error RedisError.token_reuse) ≡ ErrorCode.auth_invalid_token)
reuse_answered_as_missing_example =
    reuse_answered_as_missing memory registros listas json show show_i 9 request rotated revoked
      reuse_run

reply_means_rotated_example :
    (reg : Registro) × (out.payload ≡ print reg)
    × Guarda memory registros stored (txt "h") reg
    × (reg.rotacionado ≡ false)
    × Guarda memory registros rotated (txt "h") (rotacionado_de reg)
reply_means_rotated_example =
    reply_means_rotated memory registros listas json show show_i memory_laws registros_laws 9
      request out stored rotated refl out-reply
