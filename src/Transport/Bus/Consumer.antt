-- ===== src/Transport/Bus/Consumer.antt =====
-- `Consumer` and the group operations of transport/src/bus.rs. What a consumer of one stream and one
-- group uses of Redis is a parameter, and so is the handler; both act on the surroundings `W`.
use smart_core_assistant_v.Prelude.{
  ℕ, zero, suc, ◌≡◌, sym, ap, ◌∙◌, Bool, Bool-cases, true, false, List, [], ◌∷◌, ◌⊎◌, inl, inr,
  Text, text_eq, text_eq_iff,
}
use smart_core_assistant_v.Transport.Error.{TransportError, Result, ok, err}
use smart_core_assistant_v.Transport.Bus.Events.{EventoBruto}

-- The answer to XGROUP CREATE.
pub data Criacao : Type 0 where
  criado busygroup : Criacao
  outro : Text → Criacao

-- `pendentes` is XREADGROUP from "0", `novos` from ">", each already through `extrair_eventos`; both
-- take the largest number of entries. `tratar` is the handler. `entregue`, `pendente` and `tratado`
-- say of an entry's identifier that the group has delivered it to this consumer, that it stands in
-- the consumer's list of pending entries, and that the handler has run to its end on it.
pub record Grupo : Type 1 where
  pub W : Type 0
  pub xgroup_create : W → Criacao × W
  pub pendentes : ℕ → W → (Text ⊎ List EventoBruto) × W
  pub novos : ℕ → W → (Text ⊎ List EventoBruto) × W
  pub xack : Text → W → (Text ⊎ ℕ) × W
  pub tratar : EventoBruto → W → W
  pub entregue : W → Text → Bool
  pub pendente : W → Text → Bool
  pub tratado : W → Text → Bool

-- What the group has delivered is pending or has been handled.
abbrev pub Guardado : (g : Grupo) → g.W → Type 0
Guardado g w =
    (id : Text) → g.entregue w id ≡ true → (g.pendente w id ≡ true) ⊎ (g.tratado w id ≡ true)

-- Nothing that is pending or handled ceases to be so, and nothing is delivered.
pub record Mantem (g : Grupo) (a b : g.W) : Type 0 where
  pub entregues : (id : Text) → g.entregue b id ≡ g.entregue a id
  pub pendentes : (id : Text) → g.pendente b id ≡ g.pendente a id
  pub tratados : (id : Text) → g.tratado a id ≡ true → g.tratado b id ≡ true

-- Redis puts what it delivers on the list of pending entries, and only an XACK, which may fail,
-- takes an entry off. The handler does not touch the group; it ends on the event it was given.
pub record GrupoLaws (g : Grupo) : Type 0 where
  pub create : (a : g.W) → Mantem g a (g.xgroup_create a).1
  pub pendentes_read : (n : ℕ) (a : g.W) → Mantem g a (g.pendentes n a).1
  pub novos_delivers :
      (n : ℕ) (a : g.W) (id : Text)
      → g.entregue (g.novos n a).1 id ≡ true
      → (g.entregue a id ≡ true) ⊎ (g.pendente (g.novos n a).1 id ≡ true)
  pub novos_pendente :
      (n : ℕ) (a : g.W) (id : Text) → g.pendente a id ≡ true → g.pendente (g.novos n a).1 id ≡ true
  pub novos_tratado :
      (n : ℕ) (a : g.W) (id : Text) → g.tratado a id ≡ true → g.tratado (g.novos n a).1 id ≡ true
  pub ack_entregue :
      (k : Text) (a : g.W) (id : Text) → g.entregue (g.xack k a).1 id ≡ g.entregue a id
  pub ack_pendente :
      (k : Text) (a : g.W) (id : Text)
      → text_eq k id ≡ false
      → g.pendente (g.xack k a).1 id ≡ g.pendente a id
  pub ack_tratado : (k : Text) (a : g.W) (id : Text) → g.tratado (g.xack k a).1 id ≡ g.tratado a id
  pub handles : (e : EventoBruto) (a : g.W) → Mantem g a (g.tratar e a)
  pub handled : (e : EventoBruto) (a : g.W) → g.tratado (g.tratar e a) e.stream_id ≡ true

module _ (g : Grupo) where
  open g use {W}

  -- A process, with the number of calls that it still makes before it stops, and its surroundings.
  abbrev pub Processo : Type 0
  Processo = ℕ × W

  -- One call. A process that has stopped changes nothing; `parado` stands for the answer that it does
  -- not get.
  abbrev pub chamar : {A : Type 0} → A → (W → A × W) → Processo → A × Processo
  chamar parado f (zero, w) = (parado, (zero, w))
  chamar parado f (suc k, w) = let (a, w') = f w in (a, (k, w'))

  abbrev pub criacao_de : Criacao → Result (Unit {0})
  criacao_de criado = ok tt
  criacao_de busygroup = ok tt
  criacao_de (outro e) = err (TransportError.bus e)

  unfoldable pub garantir_consumer_group_stream : Processo → Result (Unit {0}) × Processo
  garantir_consumer_group_stream p =
      let (c, p') = chamar criado g.xgroup_create p in (criacao_de c, p')

  -- The loop over the events that a read gave: the handler, then the acknowledgement, whose error
  -- is passed over.
  unfoldable pub processar : List EventoBruto → Processo → Processo
  processar [] p = p
  processar (e ∷ eventos) p =
      processar eventos
        (chamar (inr 0) (g.xack e.stream_id) (chamar tt (λ w. (tt, g.tratar e w)) p).1).1

  -- An error of a read is logged.
  abbrev pub apos_ler : (Text ⊎ List EventoBruto) × Processo → Processo
  apos_ler (inl e, p) = p
  apos_ler (inr eventos, p) = processar eventos p

  unfoldable pub pendencias : Processo → Processo
  pendencias p = apos_ler (chamar (inr []) (g.pendentes 10) p)

  unfoldable pub rodada : Processo → Processo
  rodada p = apos_ler (chamar (inr []) (g.novos 10) p)

  abbrev pub rodadas : ℕ → Processo → Processo
  rodadas zero p = p
  rodadas (suc n) p = rodadas n (rodada p)

  abbrev pub apos_grupo : ℕ → Result (Unit {0}) × Processo → Processo
  apos_grupo n (err e, p) = p
  apos_grupo n (ok _, p) = rodadas n (pendencias p)

  -- What a process that starts at `p` has reached after `n` rounds of the endless loop of `run`, or
  -- where it has stopped, or where it has returned the error of the group's creation.
  unfoldable pub run : ℕ → Processo → Processo
  run n p = apos_grupo n (garantir_consumer_group_stream p)

module _ (g : Grupo) (laws : GrupoLaws g) where
  open g use {W}

  Mantem-Guardado : (a b : W) → Mantem g a b → Guardado g a → Guardado g b
  Mantem-Guardado a b m h id delivered = elim (h id (sym (m.entregues id) ∙ delivered)) [
    | inl p ↦ inl (m.pendentes id ∙ p)
    | inr t ↦ inr (m.tratados id t)
  ]

  -- An event is acknowledged after its handler has ended.
  ack-Guardado :
      (k : Text) (a : W) → g.tratado a k ≡ true → Guardado g a → Guardado g (g.xack k a).1
  ack-Guardado k a done h id delivered = elim (Bool-cases (text_eq k id)) [
    | inl same ↦
        inr (laws.ack_tratado k a id ∙ ap (g.tratado a) (sym ((text_eq_iff k id).0 same)) ∙ done)
    | inr other ↦ elim (h id (sym (laws.ack_entregue k a id) ∙ delivered)) [
      | inl p ↦ inl (laws.ack_pendente k a id other ∙ p)
      | inr t ↦ inr (laws.ack_tratado k a id ∙ t)
    ]
  ]

  processar-Guardado :
      (eventos : List EventoBruto) (p : Processo g)
      → Guardado g p.1
      → Guardado g (processar g eventos p).1
  unfolding processar
  processar-Guardado [] p h = h
  processar-Guardado (e ∷ eventos) (zero, a) h = processar-Guardado eventos (zero, a) h
  processar-Guardado (e ∷ eventos) (suc zero, a) h =
      processar-Guardado eventos (zero, g.tratar e a)
        (Mantem-Guardado a (g.tratar e a) (laws.handles e a) h)
  processar-Guardado (e ∷ eventos) (suc (suc k), a) h =
      processar-Guardado eventos (k, (g.xack e.stream_id (g.tratar e a)).1)
        (ack-Guardado e.stream_id (g.tratar e a) (laws.handled e a)
          (Mantem-Guardado a (g.tratar e a) (laws.handles e a) h))

  apos_ler-Guardado :
      (x : (Text ⊎ List EventoBruto) × Processo g) → Guardado g x.1.1 → Guardado g (apos_ler g x).1
  apos_ler-Guardado (inl e, p) h = h
  apos_ler-Guardado (inr eventos, p) h = processar-Guardado eventos p h

  rodada-Guardado : (p : Processo g) → Guardado g p.1 → Guardado g (rodada g p).1
  unfolding rodada
  rodada-Guardado (zero, a) h = processar-Guardado [] (zero, a) h
  rodada-Guardado (suc k, a) h =
      apos_ler-Guardado ((g.novos 10 a).0, (k, (g.novos 10 a).1))
        (λ id delivered. elim (laws.novos_delivers 10 a id delivered) [
          | inr p ↦ inl p
          | inl before ↦ elim (h id before) [
            | inl p ↦ inl (laws.novos_pendente 10 a id p)
            | inr t ↦ inr (laws.novos_tratado 10 a id t)
          ]
        ])

  rodadas-Guardado : (n : ℕ) (p : Processo g) → Guardado g p.1 → Guardado g (rodadas g n p).1
  rodadas-Guardado zero p h = h
  rodadas-Guardado (suc n) p h = rodadas-Guardado n (rodada g p) (rodada-Guardado p h)

  pendencias-Guardado : (p : Processo g) → Guardado g p.1 → Guardado g (pendencias g p).1
  unfolding pendencias
  pendencias-Guardado (zero, a) h = processar-Guardado [] (zero, a) h
  pendencias-Guardado (suc k, a) h =
      apos_ler-Guardado ((g.pendentes 10 a).0, (k, (g.pendentes 10 a).1))
        (Mantem-Guardado a (g.pendentes 10 a).1 (laws.pendentes_read 10 a) h)

  apos_grupo-Guardado :
      (n : ℕ) (x : Result (Unit {0}) × Processo g)
      → Guardado g x.1.1
      → Guardado g (apos_grupo g n x).1
  apos_grupo-Guardado n (err e, p) h = h
  apos_grupo-Guardado n (ok _, p) h = rodadas-Guardado n (pendencias g p) (pendencias-Guardado p h)

  run-Guardado : (n : ℕ) (p : Processo g) → Guardado g p.1 → Guardado g (run g n p).1
  unfolding run garantir_consumer_group_stream
  run-Guardado n (zero, a) h = apos_grupo-Guardado n (ok tt, (zero, a)) h
  run-Guardado n (suc k, a) h =
      apos_grupo-Guardado n (garantir_consumer_group_stream g (suc k, a))
        (Mantem-Guardado a (g.xgroup_create a).1 (laws.create a) h)

  -- No event is lost, wherever the process stops: after any number of rounds of `run` and any number
  -- of calls, of Redis or of the handler, whatever reads and acknowledgements fail, each event that
  -- the group has delivered to the consumer is still pending or its handler has run to its end, if
  -- that held of the events delivered before the start.
  pub no_event_lost :
      (n calls : ℕ) (a : W) (id : Text)
      → Guardado g a
      → g.entregue (run g n (calls, a)).1 id ≡ true
      → (g.pendente (run g n (calls, a)).1 id ≡ true) ⊎ (g.tratado (run g n (calls, a)).1 id ≡ true)
  no_event_lost n calls a id h = run-Guardado n (calls, a) h id
