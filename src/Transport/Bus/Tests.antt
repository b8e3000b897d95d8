-- ===== src/Transport/Bus/Tests.antt =====
-- The theorems on the event bus at plain formats and a group in memory.
use smart_core_assistant_v.Prelude.{
  ℕ, zero, suc, ◌<◌, ◌++◌, length, ◌≡◌, refl, sym, ap, ◌∙◌, subst, Bool, Bool-cases, text_eq_iff,
  true, false, ◌||◌, some, List, [], ◌∷◌, ◌⊎◌, inl, inr, take, drop, Text, txt, text_eq,
  text_eq_refl, if◌then◌else◌, arith,
}
use mathlib.Core.List.{Memᴰ}
use mathlib.Core.List.Memᴰ.{head, tail}
use smart_core_assistant_v.Prelude.Results.{inr_inj}
use smart_core_assistant_v.Contracts.{TenantEnvelope}
use smart_core_assistant_v.Transport.Bus.Events.{EventoBruto, Formats, FormatsLaws}
use smart_core_assistant_v.Transport.Bus.Consumer.{
  criado, Grupo, GrupoLaws, Mantem, run, no_event_lost, garantir_consumer_group_stream, pendencias,
  rodada, processar,
}
use smart_core_assistant_v.Transport.Bus.Recovery.{PendentesLaws, pending_handled}

abbrev one_of : Text → Text ⊎ ℕ
one_of (n ∷ []) = inr n
one_of t = inl (txt "invalid")

abbrev plain : Formats ℕ ℕ Text
plain = record {
  Value = Text;
  show_uuid = λ u. u ∷ [];
  parse_uuid = one_of;
  to_rfc3339 = λ d. d ∷ [];
  parse_rfc3339 = one_of;
  to_string = λ t. inr t;
  from_str = λ t. inr t;
  bulk = λ t. t;
  from_redis_value = some;
}

plain_laws : FormatsLaws plain
plain_laws = record { uuid = λ u. refl; date = λ d. refl; json = λ t s e. sym e; value = λ t. refl }

abbrev event : TenantEnvelope ℕ ℕ Text
event = record {
  tenant_id = 4;
  event_id = 5;
  event_type = txt "created";
  timestamp = 6;
  traceparent = txt "00-1";
  payload = txt "{}";
}

record Memory : Type 0 where
  fila : List EventoBruto
  pel : List EventoBruto
  sent : Text → Bool
  done : Text → Bool

abbrev among : Text → List EventoBruto → Bool
among id [] = false
among id (e ∷ es) = text_eq e.stream_id id || among id es

abbrev remove : Text → List EventoBruto → List EventoBruto
remove k [] = []
remove k (e ∷ es) = if text_eq e.stream_id k then remove k es else e ∷ remove k es

abbrev grupo : Grupo
grupo = record {
  W = Memory;
  xgroup_create = λ w. (criado, w);
  pendentes = λ n w. (inr (take n w.pel), w);
  novos = λ n w. (
    inr (take n w.fila),
    record w {
      fila = drop n w.fila;
      sent = λ id. among id (take n w.fila) || w.sent id;
      pel = w.pel ++ take n w.fila;
    },
  );
  xack = λ k w. (inr 1, record w { pel = remove k w.pel });
  tratar = λ e w. record w { done = λ id. if text_eq e.stream_id id then true else w.done id };
  entregue = λ w id. w.sent id;
  pendente = λ w id. among id w.pel;
  tratado = λ w id. w.done id;
}

among_left :
    (id : Text) (xs ys : List EventoBruto) → among id xs ≡ true → among id (xs ++ ys) ≡ true
among_left id [] ys h = cc
among_left id (x ∷ xs) ys h = elim (Bool-cases (text_eq x.stream_id id)) [
  | inl p ↦ rw p refl
  | inr p ↦ rw p (among_left id xs ys (rw p at h))
]

among_right :
    (id : Text) (xs ys : List EventoBruto) → among id ys ≡ true → among id (xs ++ ys) ≡ true
among_right id [] ys h = h
among_right id (x ∷ xs) ys h = elim (Bool-cases (text_eq x.stream_id id)) [
  | inl p ↦ rw p refl
  | inr p ↦ rw p (among_right id xs ys h)
]

among-remove :
    (k id : Text) (xs : List EventoBruto)
    → text_eq k id ≡ false
    → among id (remove k xs) ≡ among id xs
among-remove k id [] other = refl
among-remove k id (x ∷ xs) other = elim (Bool-cases (text_eq x.stream_id k)) [
  | inl p ↦
      let q : text_eq x.stream_id id ≡ false =
        ap (λ z. text_eq z id) ((text_eq_iff x.stream_id k).0 p) ∙ other in
      rw (p, q) (among-remove k id xs other)
  | inr p ↦ rw p (ap (λ z. text_eq x.stream_id id || z) (among-remove k id xs other))
]

new_cases :
    (id : Text) (xs ys : List EventoBruto) (before : Bool)
    → (among id ys || before) ≡ true
    → (before ≡ true) ⊎ (among id (xs ++ ys) ≡ true)
new_cases id xs ys before h = elim (Bool-cases (among id ys)) [
  | inl p ↦ inr (among_right id xs ys p)
  | inr p ↦ inl (rw p at h)
]

same_state : (a : Memory) → Mantem grupo a a
same_state a = record { entregues = λ id. refl; pendentes = λ id. refl; tratados = λ id t. t }

grupo_laws : GrupoLaws grupo
grupo_laws = record {
  create = same_state;
  pendentes_read = λ n a. same_state a;
  novos_delivers = λ n a id h. new_cases id a.pel (take n a.fila) (a.sent id) h;
  novos_pendente = λ n a id h. among_left id a.pel (take n a.fila) h;
  novos_tratado = λ n a id h. h;
  ack_entregue = λ k a id. refl;
  ack_pendente = λ k a id other. among-remove k id a.pel other;
  ack_tratado = λ k a id. refl;
  handles = λ e a. record {
    entregues = λ id. refl;
    pendentes = λ id. refl;
    tratados = λ id t. ground arith;
  };
  handled = λ e a. rw (text_eq_refl e.stream_id) refl;
}

taken :
    (n : ℕ) (xs : List EventoBruto) (id : Text)
    → length (take n xs) < n
    → among id xs ≡ true
    → (e : EventoBruto) × Memᴰ e (take n xs) × (e.stream_id ≡ id)
taken zero xs id few h = absurd (omega (arith, few))
taken (suc n) [] id few h = cc
taken (suc n) (x ∷ xs) id few h = elim (Bool-cases (text_eq x.stream_id id)) [
  | inl p ↦ (x, head refl, (text_eq_iff x.stream_id id).0 p)
  | inr p ↦ let (e, m, same) = taken n xs id (omega (arith, few)) (rw p at h) in (e, tail m, same)
]

pendentes_laws : PendentesLaws grupo
pendentes_laws = record {
  all_read = λ n a es b id read few waiting.
      let same : take n a.pel ≡ es = inr_inj (ap (λ z. z.0) read) in
      subst (λ l. (e : EventoBruto) × Memᴰ e l × (e.stream_id ≡ id)) same
        (taken n a.pel id (subst (λ l. length l < n) (sym same) few) waiting);
}

abbrev bruto : Text → EventoBruto
bruto id = record {
  stream_id = id;
  tenant_id = 4 ∷ [];
  event_id = 5 ∷ [];
  event_type = txt "created";
  timestamp = 6 ∷ [];
  traceparent = [];
  payload = txt "{}";
}

abbrev start : Memory
start = record {
  fila = bruto (txt "2-0") ∷ bruto (txt "3-0") ∷ [];
  pel = bruto (txt "1-0") ∷ [];
  sent = λ id. text_eq (txt "1-0") id || false;
  done = λ id. false;
}

-- The process stops after the handler of the event "2-0" and before its acknowledgement.
abbrev stopped : Memory
stopped = (run grupo 2 (6, start)).1

second_sent : stopped.sent (txt "2-0") ≡ true
unfolding run garantir_consumer_group_stream pendencias rodada processar
second_sent = refl

no_event_lost_example : (among (txt "2-0") stopped.pel ≡ true) ⊎ (stopped.done (txt "2-0") ≡ true)
no_event_lost_example =
    no_event_lost grupo grupo_laws 2 6 start (txt "2-0") (λ id h. inl h) second_sent

pending_handled_example : (run grupo 1 (5, start)).1.done (txt "1-0") ≡ true
pending_handled_example =
    pending_handled grupo grupo_laws pendentes_laws 1 1 start start (bruto (txt "1-0") ∷ [])
      (txt "1-0") refl refl (omega arith) refl
