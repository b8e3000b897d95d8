-- ===== src/Redis/Tests.antt =====
-- The theorems on the token store at the server in memory.
use smart_core_assistant_v.Prelude.{
  ℕ, ◌≡◌, refl, true, false, none, some, ◌⊎◌, Text, txt, text_eq, if◌then◌else◌, arith,
}
use smart_core_assistant_v.Redis.Server.{elem}
use smart_core_assistant_v.Redis.Keys.{
  chave_refresh, chave_refresh_familia, chave_blocklist, chave_flow_permissions,
}
use smart_core_assistant_v.Redis.Errors.{RedisError}
use smart_core_assistant_v.Redis.Exec.{Result, ok, err}
use smart_core_assistant_v.Redis.Tokens.{
  RegistroRefresh, novo_registro, armazenar, ler, marcar, apagar, por_uso, revogar_familia,
  rotacionar, validar_e_rotacionar, bloquear, esta_bloqueado,
}
use smart_core_assistant_v.Redis.Records.{Guarda}
use smart_core_assistant_v.Redis.Rotation.{
  Faulty, rotacionado_de, validar_e_rotacionar-ok, used_once, reuse_revokes,
}
use smart_core_assistant_v.Redis.Race.{Delivers, two_readers_deliver}
use smart_core_assistant_v.Redis.Issue.{stored_rotates}
use smart_core_assistant_v.Redis.Cache.{definir_flow_permissions, obter_flow_permissions}
use smart_core_assistant_v.Redis.Records.{SerdeLaws}
use smart_core_assistant_v.Redis.Tokens.{Serde}
use smart_core_assistant_v.Prelude.{List, [], ◌∷◌, sym, inr}
use smart_core_assistant_v.Redis.Memory.{
  Memory, memory, memory_laws, empty, plain, plain_laws, registro,
}

abbrev fam : Text
fam = txt "fam"

abbrev fresh : RegistroRefresh ℕ ℕ
fresh = registro 7 false none fam

abbrev used : RegistroRefresh ℕ ℕ
used = registro 7 true none fam

abbrev stored : Memory
stored = (armazenar memory plain (txt "h") 7 none fam 60 empty).1

abbrev rotated : Memory
rotated = (validar_e_rotacionar memory plain (txt "h") stored).1

abbrev revoked : Memory
revoked = (validar_e_rotacionar memory plain (txt "h") rotated).1

armazenar_run : armazenar memory plain (txt "h") 7 none fam 60 empty ≡ (ok tt, stored)
unfolding armazenar
armazenar_run = refl

rotate_run : validar_e_rotacionar memory plain (txt "h") stored ≡ (ok fresh, rotated)
unfolding armazenar validar_e_rotacionar ler rotacionar por_uso marcar chave_refresh
    chave_refresh_familia
rotate_run = refl

reuse_run :
    validar_e_rotacionar memory plain (txt "h") rotated ≡ (err RedisError.token_reuse, revoked)
unfolding armazenar validar_e_rotacionar ler rotacionar por_uso marcar chave_refresh
    chave_refresh_familia revogar_familia apagar
reuse_run = refl

validar_e_rotacionar-ok_example :
    Guarda memory plain stored (txt "h") fresh
    × (fresh.rotacionado ≡ false)
    × Guarda memory plain rotated (txt "h") (rotacionado_de fresh)
    × (rotated.times (chave_refresh (txt "h")) ≡ stored.times (chave_refresh (txt "h")))
    × ((j : Text)
        → text_eq (chave_refresh (txt "h")) j ≡ false
        → rotated.strings j ≡ stored.strings j)
validar_e_rotacionar-ok_example =
    validar_e_rotacionar-ok memory plain memory_laws plain_laws (txt "h") stored rotated fresh
      rotate_run

abbrev reused : Result (RegistroRefresh ℕ ℕ)
reused = err RedisError.token_reuse

used_once_example : (reused ≡ err RedisError.token_reuse) ⊎ Faulty reused
used_once_example =
    used_once memory plain memory_laws plain_laws (txt "h") stored rotated revoked fresh reused
      rotate_run reuse_run

reuse_revokes_example :
    (reg : RegistroRefresh ℕ ℕ) × Guarda memory plain rotated (txt "h") reg
    × (reg.rotacionado ≡ true)
    × ((m : Text)
        → revoked.strings (chave_refresh m) ≡ (
            if memory.has rotated (chave_refresh_familia reg.family_id) m
            then none
            else rotated.strings (chave_refresh m)))
    × ((m : Text) → memory.has revoked (chave_refresh_familia reg.family_id) m ≡ false)
reuse_revokes_example =
    reuse_revokes memory plain memory_laws plain_laws (txt "h") rotated revoked reuse_run

-- Both calls read before either writes.
ler_run : ler memory plain (txt "h") stored ≡ (ok fresh, stored)
unfolding armazenar ler chave_refresh chave_refresh_familia
ler_run = refl

abbrev late : Memory
late = (rotacionar memory plain (txt "h") fresh rotated).1

first_run : rotacionar memory plain (txt "h") fresh stored ≡ (ok fresh, rotated)
unfolding armazenar validar_e_rotacionar ler rotacionar por_uso marcar chave_refresh
    chave_refresh_familia
first_run = refl

second_run : rotacionar memory plain (txt "h") fresh rotated ≡ (ok fresh, late)
unfolding armazenar validar_e_rotacionar ler rotacionar por_uso marcar chave_refresh
    chave_refresh_familia
second_run = refl

two_readers_deliver_example :
    (fresh ≡ fresh) × Delivers plain fresh (ok fresh) × Delivers plain fresh (ok fresh)
two_readers_deliver_example =
    two_readers_deliver memory plain memory_laws (txt "h") stored stored stored rotated late fresh
      fresh (ok fresh) (ok fresh) ler_run ler_run refl first_run second_run

stored_rotates_example : Faulty (ok fresh) ⊎ Delivers plain (novo_registro 7 none fam) (ok fresh)
stored_rotates_example =
    stored_rotates memory plain memory_laws plain_laws (txt "h") 7 none fam 59 empty stored
      (ok fresh) rotated (omega arith) armazenar_run rotate_run

abbrev blocked : Memory
blocked = (bloquear memory (txt "j") 900 empty).1

bloquear_run : bloquear memory (txt "j") 900 empty ≡ (ok tt, blocked)
unfolding bloquear
bloquear_run = refl

esta_bloqueado_run : esta_bloqueado memory (txt "j") blocked ≡ (ok true, blocked)
unfolding bloquear esta_bloqueado chave_blocklist
esta_bloqueado_run = refl

no_blocklist : (m : Text) → memory.has empty (chave_blocklist (txt "j")) m ≡ false
unfolding elem
no_blocklist m = refl

abbrev down : RedisError
down = RedisError.redis (record {
  connection_refusal = false;
  connection_dropped = false;
  timeout = false;
  io_error = false;
  text = txt "service unavailable";
})

-- Permissions as their numbers.
abbrev flows_text : Serde (List ℕ)
flows_text = record { to_string = λ xs. inr xs; from_str = λ t. inr t }

flows_laws : SerdeLaws flows_text
flows_laws = record { round_trip = λ a s e. sym e }

abbrev flows : List ℕ
flows = 1 ∷ 2 ∷ []

abbrev one_char : ℕ → Text
one_char n = n ∷ []

abbrev cached : Memory
cached = (definir_flow_permissions memory flows_text one_char one_char 4 7 flows 60 empty).1

definir_run :
    definir_flow_permissions memory flows_text one_char one_char 4 7 flows 60 empty
    ≡ (ok tt, cached)
unfolding definir_flow_permissions
definir_run = refl

obter_run :
    obter_flow_permissions memory flows_text one_char one_char 4 7 cached
    ≡ (ok (some flows), cached)
unfolding definir_flow_permissions obter_flow_permissions chave_flow_permissions
obter_run = refl
