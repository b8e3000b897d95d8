-- ===== src/Transport/Runtime/Server/Quiescence.antt =====
-- Which answers a connection of `handle_connection` (transport/src/runtime.rs) has written, in
-- whatever order its tasks end.
use smart_core_assistant_v.Prelude.{
  ℕ, ◌+◌, ◌≤◌, ◌≡◌, refl, sym, ◌∙◌, Bool, true, false, Bool-cases, List, [], ◌∷◌, ◌++◌, ◌==◌,
  if◌then◌else◌, inl, inr, arith,
}
use smart_core_assistant_v.Transport.Error.{Result, ok, err}
use smart_core_assistant_v.Transport.Framing.{Frame}
use smart_core_assistant_v.Transport.Codec.Interface.{Codec}
use smart_core_assistant_v.Transport.Runtime.Server.Defs.{
  Handlers, Agora, Atendimento, Passo, Passos, recebe, termina, aborta, escreve, quebra, here, next,
  enviar, receber, inicio, atender, atender_decodificado, resposta_de, pong_de, is_ping, to_list,
}

abbrev pub um : ℕ → Frame → ℕ
um c f = if f.corr_id == c then 1 else 0

-- How many of the frames carry the identifier `c`.
unfoldable pub conta : ℕ → List Frame → ℕ
conta c [] = 0
conta c (f ∷ fs) = um c f + conta c fs

abbrev pub se_decodifica {ℓ} : {A : Type ℓ} → Result A → ℕ → ℕ
se_decodifica (ok _) n = n
se_decodifica (err _) n = 0

-- How many answers with the identifier `c` tasks for these frames owe.
unfoldable pub em_tarefa : Codec → ℕ → List Frame → ℕ
em_tarefa codec c [] = 0
em_tarefa codec c (f ∷ fs) = se_decodifica (codec.decode f.body) (um c f) + em_tarefa codec c fs

-- How many answers with the identifier `c` these frames ask for: a PING asks for one, another frame
-- for one if its body decodes.
unfoldable pub devidas : Codec → ℕ → List Frame → ℕ
devidas codec c [] = 0
devidas codec c (f ∷ fs) =
    (if is_ping f then um c f else se_decodifica (codec.decode f.body) (um c f))
    + devidas codec c fs

conta-append : (c : ℕ) (xs ys : List Frame) → conta c (xs ++ ys) ≡ conta c xs + conta c ys
unfolding conta
conta-append c [] ys = omega arith
conta-append c (x ∷ xs) ys = omega (arith, conta-append c xs ys)

em_tarefa-middle :
    (codec : Codec) (c : ℕ) (xs : List Frame) (f : Frame) (ys : List Frame)
    → em_tarefa codec c (xs ++ f ∷ ys)
      ≡ se_decodifica (codec.decode f.body) (um c f) + em_tarefa codec c (xs ++ ys)
unfolding em_tarefa
em_tarefa-middle codec c [] f ys = refl
em_tarefa-middle codec c (x ∷ xs) f ys = omega (arith, em_tarefa-middle codec c xs f ys)

impossible : false ≡ true → ⊥
impossible e = cc

module _ {W : Type 0} (codec : Codec) (hs : Handlers W) where
  conta-decodificado :
      (c : ℕ) (w : W) (now : Agora) (f : Frame) (r : Result _)
      → conta c (to_list (atender_decodificado codec hs w now f.corr_id r))
        ≡ se_decodifica r (um c f)
  unfolding conta resposta_de
  conta-decodificado c w now f (ok env) = omega arith
  conta-decodificado c w now f (err e) = refl

  conta-atender :
      (c : ℕ) (w : W) (now : Agora) (f : Frame)
      → conta c (to_list (atender codec hs w now f)) ≡ se_decodifica (codec.decode f.body) (um c f)
  unfolding atender
  conta-atender c w now f = conta-decodificado c w now f (codec.decode f.body)

  -- The answers with the identifier `c` that are written, wait, or are owed.
  abbrev pub soma : ℕ → Atendimento → ℕ
  soma c s =
      conta c s.escritas
      + (conta c s.canal + (em_tarefa codec c s.tarefas + devidas codec c s.entrada))

  -- What a frame that is sent adds, or loses when the channel is closed.
  enviar-soma :
      (c : ℕ) (fs : List Frame) (s : Atendimento)
      → ((enviar fs s).aberto ≡ s.aberto)
        × (soma c (enviar fs s) ≤ soma c s + conta c fs)
        × (s.aberto ≡ true → soma c (enviar fs s) ≡ soma c s + conta c fs)
  unfolding enviar
  enviar-soma c fs s = elim (Bool-cases s.aberto) [
    | inl aberta ↦ rw aberta (
      refl,
      omega (arith, conta-append c s.canal fs),
      (λ h. omega (arith, conta-append c s.canal fs)),
    )
    | inr closed ↦ rw closed (refl, omega arith, (λ h. absurd (impossible h)))
  ]

  -- A step from `s` to `t` makes no answer, and loses none while the channel is aberta.
  abbrev pub Conserva : ℕ → Bool → Atendimento → Atendimento → Type 0
  Conserva c panica s t =
      (soma c t ≤ soma c s)
      × (panica ≡ false → t.aberto ≡ true → (s.aberto ≡ true) × (soma c t ≡ soma c s))

  -- Frames that are sent in place of what was owed for them.
  enviar-Conserva :
      (c : ℕ) (panica : Bool) (fs : List Frame) (s t : Atendimento)
      → soma c s ≡ soma c t + conta c fs
      → t.aberto ≡ s.aberto
      → Conserva c panica s (enviar fs t)
  enviar-Conserva c panica fs s t owed same =
      let (aberta, bound, exact) = enviar-soma c fs t in
      (
        omega (arith, bound, owed),
        λ p h. let still = sym aberta ∙ h in (sym same ∙ still, exact still ∙ sym owed),
      )

  same-Conserva :
      (c : ℕ) (panica : Bool) (s t : Atendimento)
      → soma c t ≡ soma c s
      → t.aberto ≡ s.aberto
      → Conserva c panica s t
  same-Conserva c panica s t e same = (omega (arith, e), λ p h. (sym same ∙ h, e))

  receber-Conserva :
      (c : ℕ) (panica : Bool) (f : Frame) (rest : List Frame) (s : Atendimento)
      → s.entrada ≡ f ∷ rest
      → Conserva c panica s (receber f rest s)
  unfolding receber devidas em_tarefa conta pong_de
  receber-Conserva c panica f rest s e = elim (Bool-cases (is_ping f)) [
    | inl p ↦ rw (p) (
        enviar-Conserva c panica (pong_de f ∷ []) s (record s { entrada = rest })
          (rw (e, p) (omega arith)) refl)
    | inr p ↦ rw (p) (
        same-Conserva c panica s (record s { entrada = rest; tarefas = f ∷ s.tarefas })
          (rw (e, p) (omega arith)) refl)
  ]

  Passo-Conserva :
      (c : ℕ) (panica : Bool) {s t : Atendimento}
      → Passo codec hs panica s t
      → Conserva c panica s t
  unfolding conta
  Passo-Conserva c panica (recebe f rest s e room) = receber-Conserva c panica f rest s e
  Passo-Conserva c panica (termina before f after w now s e room) =
      enviar-Conserva c panica (to_list (atender codec hs w now f)) s
        (record s { tarefas = before ++ after })
        (rw e (omega (arith, conta-atender c w now f, em_tarefa-middle codec c before f after)))
        refl
  Passo-Conserva c panica (aborta before f after s e may) = (
    rw e (omega (arith, em_tarefa-middle codec c before f after)),
    λ never h. absurd (impossible (sym never ∙ may)),
  )
  Passo-Conserva c panica (escreve f rest s e) =
      same-Conserva c panica s (record s { canal = rest; escritas = s.escritas ++ f ∷ [] })
        (rw e (omega (arith, conta-append c s.escritas (f ∷ [])))) refl
  Passo-Conserva c panica (quebra f rest s e) = (omega arith, λ p h. absurd (impossible h))

  Passos-Conserva :
      (c : ℕ) (panica : Bool) {s t : Atendimento}
      → Passos codec hs panica s t
      → Conserva c panica s t
  Passos-Conserva c panica here = (omega arith, λ p h. (h, refl))
  Passos-Conserva c panica (next r step) =
      let (less, exact) = Passos-Conserva c panica r in
      let (less', exact') = Passo-Conserva c panica step in
      (
        omega (arith, less, less'),
        λ p h. let (aberta, e') = exact' p h in let (first, e) = exact p aberta in (first, e' ∙ e),
      )

  -- A connection on which no frame failed to be written and no handler panicked, once every frame
  -- has been read, every task has ended and the channel is empty, in whatever order: each identifier
  -- stands on as many written answers as there are frames that carry it and ask for one. A frame
  -- whose body does not decode gets none.
  pub each_call_answered_once :
      (fs : List Frame) (t : Atendimento) (c : ℕ)
      → Passos codec hs false (inicio fs) t
      → t.aberto ≡ true
      → t.entrada ≡ []
      → t.tarefas ≡ []
      → t.canal ≡ []
      → conta c t.escritas ≡ devidas codec c fs
  unfolding em_tarefa devidas conta
  each_call_answered_once fs t c r aberta e e' e'' =
      let (_, exact) = Passos-Conserva c false r in
      let (_, same) = exact refl aberta in ground (arith, same)

  -- Whatever fails, also a writing or a handler, in no state are there more answers with an
  -- identifier, written or waiting to be written, than frames that carry it and ask for one.
  pub answers_never_exceed :
      (panica : Bool) (fs : List Frame) (t : Atendimento) (c : ℕ)
      → Passos codec hs panica (inicio fs) t
      → conta c t.escritas + conta c t.canal ≤ devidas codec c fs
  unfolding em_tarefa conta
  answers_never_exceed panica fs t c r =
      let (less, _) = Passos-Conserva c panica r in omega (arith, less)
