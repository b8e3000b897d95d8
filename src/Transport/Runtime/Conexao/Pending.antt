-- ===== src/Transport/Runtime/Conexao/Pending.antt =====
-- What can happen to a call while it waits for its answer.
use smart_core_assistant_v.Prelude.{
  ℕ, ◌≡◌, ◌≢◌, refl, sym, ap, ◌∙◌, Bool, Bool-cases, ==_iff, true, false, [], ◌∷◌, ◌⊎◌, inl, inr,
  ◌==◌, arith,
}
use smart_core_assistant_v.Transport.Error.{ok}
use smart_core_assistant_v.Transport.Framing.{Frame}
use smart_core_assistant_v.Transport.Runtime.Conexao.Defs.{
  Conexao, marcar_morta, remover_pendente, enviar, ao_ler, fim_leitura, ao_escrever, espera,
  recebido, receptor,
}

-- What the loops, the keepalive and the other calls do while the call `c` waits. A read needs the
-- read loop; other calls have other identifiers.
pub data Step (c : ℕ) : Conexao → Conexao → Type 0 where
  outra_envia : (f : Frame) (s : Conexao) → f.corr_id ≢ c → Step c s (enviar f s).1
  outra_desiste : (d : ℕ) (s : Conexao) → d ≢ c → Step c s (remover_pendente d s)
  le : (f : Frame) (s : Conexao) → s.leitura ≡ true → Step c s (ao_ler f s)
  leitura_acaba : (s : Conexao) → Step c s (fim_leitura s)
  escreve : (written : Bool) (s : Conexao) → Step c s (ao_escrever written s)
  morre : (s : Conexao) → Step c s (marcar_morta s)

pub data Reach (c : ℕ) (s : Conexao) : Conexao → Type 0 where
  here : Reach c s s
  next : {t u : Conexao} → Reach c s t → Step c t u → Reach c s u

-- The call is pending and has got nothing, or it has got one frame, its own, and is not pending.
abbrev pub Waits : ℕ → Conexao → Type 0
Waits c s = (s.pendentes c ≡ true) × (s.entregues c ≡ [])

abbrev pub Answered : ℕ → Frame → Conexao → Type 0
Answered c f s = (s.pendentes c ≡ false) × (s.entregues c ≡ f ∷ []) × (f.corr_id ≡ c)

abbrev pub Open : ℕ → Conexao → Type 0
Open c s = Waits c s ⊎ ((f : Frame) × Answered c f s)

Step-Answered : (c : ℕ) (g : Frame) {s t : Conexao} → Step c s t → Answered c g s → Answered c g t
unfolding enviar remover_pendente ao_ler fim_leitura ao_escrever marcar_morta
Step-Answered c g (outra_envia f s ne) h = ground arith
Step-Answered c g (outra_desiste d s ne) h = ground arith
Step-Answered c g (le f s alive) (p, q, e) = elim (Bool-cases (f.corr_id == c)) [
  | inl same ↦
      let at : f.corr_id ≡ c = (==_iff f.corr_id c).0 same in
      let gone : s.pendentes f.corr_id ≡ false = ap s.pendentes at ∙ p in rw gone (p, q, e)
  | inr other ↦ ground arith
]
Step-Answered c g (leitura_acaba s) h = h
Step-Answered c g (escreve w s) h = ground arith
Step-Answered c g (morre s) h = h

le-Waits : (c : ℕ) (f : Frame) (s : Conexao) → Waits c s → Open c (ao_ler f s)
unfolding ao_ler
le-Waits c f s (p, q) = elim (Bool-cases (f.corr_id == c)) [
  | inl same ↦
      let at : f.corr_id ≡ c = (==_iff f.corr_id c).0 same in
      let here : s.pendentes f.corr_id ≡ true = ap s.pendentes at ∙ p in
      let back : (c == f.corr_id) ≡ true = (==_iff c f.corr_id).1 (sym at) in
      rw here (inr (f, (rw back, rw (back, q), at)))
  | inr other ↦ inl (ground arith, ground arith)
]

Step-Waits : (c : ℕ) {s t : Conexao} → Step c s t → Waits c s → Open c t
unfolding enviar remover_pendente fim_leitura ao_escrever marcar_morta
Step-Waits c (outra_envia f s ne) h = inl (ground arith, ground arith)
Step-Waits c (outra_desiste d s ne) h = inl (ground arith, ground arith)
Step-Waits c (le f s alive) h = le-Waits c f s h
Step-Waits c (leitura_acaba s) h = inl h
Step-Waits c (escreve w s) h = inl (ground arith, ground arith)
Step-Waits c (morre s) h = inl h

Reach-Open : (c : ℕ) {s t : Conexao} → Waits c s → Reach c s t → Open c t
Reach-Open c h here = inl h
Reach-Open c h (next r st) = elim (Reach-Open c h r) [
  | inl w ↦ Step-Waits c st w
  | inr (f, a) ↦ inr (f, Step-Answered c f st a)
]

-- A call waits or has been answered, and the receiver of its channel is never closed: not when the
-- read loop or the write loop ends, and not when the connection is marked as dead.
receptor-Open :
    (c : ℕ) (s : Conexao)
    → Open c s
    → (receptor c s ≡ espera) ⊎ ((f : Frame) × (receptor c s ≡ recebido f) × (f.corr_id ≡ c))
unfolding receptor
receptor-Open c s (inl (p, q)) = inl (rw (q, receptor) (rw p))
receptor-Open c s (inr (f, (p, q, e))) = inr (f, rw (q, receptor), e)

enviar-Waits :
    (f : Frame) (s : Conexao)
    → (enviar f s).0 ≡ ok tt
    → s.entregues f.corr_id ≡ []
    → Waits f.corr_id (enviar f s).1
unfolding enviar
enviar-Waits f s sent fresh = ground arith

-- A call whose frame was taken by the channel sees one of two things, whatever the loops, the
-- keepalive and the calls with other identifiers do then: nothing yet, or a frame that carries its
-- own identifier. It never sees its receiver closed.
pub receptor_never_closed :
    (f : Frame) (s t : Conexao)
    → (enviar f s).0 ≡ ok tt
    → s.entregues f.corr_id ≡ []
    → Reach f.corr_id (enviar f s).1 t
    → (receptor f.corr_id t ≡ espera)
      ⊎ ((g : Frame) × (receptor f.corr_id t ≡ recebido g) × (g.corr_id ≡ f.corr_id))
receptor_never_closed f s t sent fresh r =
    receptor-Open f.corr_id t (Reach-Open f.corr_id (enviar-Waits f s sent fresh) r)

-- With the read loop ended nothing more is read.
Step-dead :
    (c : ℕ) {s t : Conexao}
    → Step c s t
    → s.leitura ≡ false
    → Waits c s
    → (t.leitura ≡ false) × Waits c t
unfolding enviar remover_pendente fim_leitura ao_escrever marcar_morta
Step-dead c (outra_envia f s ne) d h = (ground arith, (ground arith, ground arith))
Step-dead c (outra_desiste e s ne) d h = (d, (ground arith, ground arith))
Step-dead c (le f s alive) d h = cc
Step-dead c (leitura_acaba s) d h = (refl, h)
Step-dead c (escreve w s) d h = (ground arith, (ground arith, ground arith))
Step-dead c (morre s) d h = (d, h)

Reach-dead :
    (c : ℕ) {s t : Conexao}
    → s.leitura ≡ false
    → Waits c s
    → Reach c s t
    → (t.leitura ≡ false) × Waits c t
Reach-dead c d h here = (d, h)
Reach-dead c d h (next r st) = let (d', h') = Reach-dead c d h r in Step-dead c st d' h'

-- A call that waits when the connection is lost goes on waiting, whatever happens then: it gets no
-- answer and is not told that the connection is gone.
pub lost_call_waits :
    (c : ℕ) (s t : Conexao)
    → s.pendentes c ≡ true
    → s.entregues c ≡ []
    → Reach c (fim_leitura s) t
    → receptor c t ≡ espera
unfolding fim_leitura receptor
lost_call_waits c s t p q r =
    let (_, (p', q')) = Reach-dead c refl (p, q) r in rw (q', receptor) (rw p')
