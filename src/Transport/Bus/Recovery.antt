-- ===== src/Transport/Bus/Recovery.antt =====
-- What a consumer of transport/src/bus.rs does at its start with the events that an earlier process
-- left pending.
use mathlib.Core.List.{Memᴰ}
use mathlib.Core.List.Memᴰ.{head, tail}
use smart_core_assistant_v.Prelude.{
  ℕ, zero, suc, ◌+◌, ◌*◌, ◌<◌, ◌≡◌, sym, ap, ◌∙◌, subst, true, List, [], ◌∷◌, length, ◌⊎◌, inl, inr,
  Text, arith,
}
use smart_core_assistant_v.Transport.Error.{ok}
use smart_core_assistant_v.Transport.Bus.Events.{EventoBruto}
use smart_core_assistant_v.Transport.Bus.Consumer.{
  Grupo, GrupoLaws, Processo, criacao_de, garantir_consumer_group_stream, processar, apos_ler,
  pendencias, rodada, rodadas, run,
}

-- A read of the pending entries that gives fewer than it may gives them all.
pub record PendentesLaws (g : Grupo) : Type 0 where
  pub all_read :
      (n : ℕ) (a : g.W) (es : List EventoBruto) (b : g.W) (id : Text)
      → g.pendentes n a ≡ (inr es, b)
      → length es < n
      → g.pendente a id ≡ true
      → (e : EventoBruto) × Memᴰ e es × (e.stream_id ≡ id)

module _ (g : Grupo) (laws : GrupoLaws g) where
  open g use {W}

  -- What has been handled stays so.
  processar-tratado :
      (eventos : List EventoBruto) (p : Processo g) (id : Text)
      → g.tratado p.1 id ≡ true
      → g.tratado (processar g eventos p).1 id ≡ true
  unfolding processar
  processar-tratado [] p id h = h
  processar-tratado (e ∷ eventos) (zero, a) id h = processar-tratado eventos (zero, a) id h
  processar-tratado (e ∷ eventos) (suc zero, a) id h =
      processar-tratado eventos (zero, g.tratar e a) id ((laws.handles e a).tratados id h)
  processar-tratado (e ∷ eventos) (suc (suc k), a) id h =
      processar-tratado eventos (k, (g.xack e.stream_id (g.tratar e a)).1) id
        (laws.ack_tratado e.stream_id (g.tratar e a) id ∙ (laws.handles e a).tratados id h)

  apos_ler-tratado :
      (x : (Text ⊎ List EventoBruto) × Processo g) (id : Text)
      → g.tratado x.1.1 id ≡ true
      → g.tratado (apos_ler g x).1 id ≡ true
  apos_ler-tratado (inl e, p) id h = h
  apos_ler-tratado (inr eventos, p) id h = processar-tratado eventos p id h

  rodadas-tratado :
      (n : ℕ) (p : Processo g) (id : Text)
      → g.tratado p.1 id ≡ true
      → g.tratado (rodadas g n p).1 id ≡ true
  unfolding rodada
  rodadas-tratado zero p id h = h
  rodadas-tratado (suc n) (zero, a) id h =
      rodadas-tratado n (processar g [] (zero, a)) id (processar-tratado [] (zero, a) id h)
  rodadas-tratado (suc n) (suc k, a) id h =
      rodadas-tratado n (apos_ler g ((g.novos 10 a).0, (k, (g.novos 10 a).1))) id (
        apos_ler-tratado ((g.novos 10 a).0, (k, (g.novos 10 a).1)) id
          (laws.novos_tratado 10 a id h))

  -- With two calls for each event, each of them is handled.
  processar-handles :
      (eventos : List EventoBruto) (k : ℕ) (a : W) (e : EventoBruto)
      → Memᴰ e eventos
      → g.tratado (processar g eventos (2 * length eventos + k, a)).1 e.stream_id ≡ true
  unfolding processar
  processar-handles [] k a e m = elim m [ ]
  processar-handles (x ∷ eventos) k a e (head same) =
      let calls : 2 * length (x ∷ eventos) + k ≡ suc (suc (2 * length eventos + k)) = omega arith in
      subst (λ n. g.tratado (processar g (x ∷ eventos) (n, a)).1 e.stream_id ≡ true) (sym calls)
        (processar-tratado eventos (2 * length eventos + k, (g.xack x.stream_id (g.tratar x a)).1)
          e.stream_id
          (laws.ack_tratado x.stream_id (g.tratar x a) e.stream_id
            ∙ ap (λ (z : EventoBruto). g.tratado (g.tratar x a) z.stream_id) same
            ∙ laws.handled x a))
  processar-handles (x ∷ eventos) k a e (tail m) =
      let calls : 2 * length (x ∷ eventos) + k ≡ suc (suc (2 * length eventos + k)) = omega arith in
      subst (λ n. g.tratado (processar g (x ∷ eventos) (n, a)).1 e.stream_id ≡ true) (sym calls)
        (processar-handles eventos k (g.xack x.stream_id (g.tratar x a)).1 e m)

  -- Recovery: when a process starts with fewer than ten events pending, the group is there and the
  -- read of the pending events succeeds, each event that was pending has been handled again once the
  -- process has made two calls and two more for each of them, however many rounds and calls follow.
  pub pending_handled :
      (all : PendentesLaws g) (n more : ℕ) (a b : W) (es : List EventoBruto) (id : Text)
      → criacao_de g (g.xgroup_create a).0 ≡ ok tt
      → g.pendentes 10 (g.xgroup_create a).1 ≡ (inr es, b)
      → length es < 10
      → g.pendente a id ≡ true
      → g.tratado (run g n (2 + (2 * length es + more), a)).1 id ≡ true
  unfolding run garantir_consumer_group_stream pendencias
  pending_handled all n more a b es id made read few waiting =
      let start = (g.xgroup_create a).1 in
      let (e, m, same) =
        all.all_read 10 start es b id read few ((laws.create a).pendentes id ∙ waiting) in
      let handled =
        subst (λ i. g.tratado (processar g es (2 * length es + more, b)).1 i ≡ true) same
          (processar-handles es more b e m) in
      let calls : 2 + (2 * length es + more) ≡ suc (suc (2 * length es + more)) = omega arith in
      rw (calls, made, read)
        (rodadas-tratado n (processar g es (2 * length es + more, b)) id handled)
