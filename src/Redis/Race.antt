-- ===== src/Redis/Race.antt =====
-- Two calls of `validar_e_rotacionar` with one token, on two connections: the GET and the SET of a
-- call are separate commands, so another call may come between them.
use smart_core_assistant_v.Prelude.{◌≡◌, ap, subst, ◌∙◌, true, false, ◌⊎◌, inl, inr, Text}
use smart_core_assistant_v.Redis.Server.{Fault, RedisServer, RedisLaws}
use smart_core_assistant_v.Redis.Keys.{chave_refresh}
use smart_core_assistant_v.Redis.Errors.{RedisError}
use smart_core_assistant_v.Redis.Exec.{Result, ok, err, command-bind-err, serde-bind-fails}
use smart_core_assistant_v.Redis.Tokens.{RegistroRefresh, Serde, ler, marcar, por_uso, rotacionar}
use smart_core_assistant_v.Redis.Records.{Guarda-unique, ler-ok, marcar-ok}

-- The call returned the record `reg`, or a command failed and the call reports its error, or the
-- record marked as rotated could not be serialised and the call reports that.
abbrev pub Delivers :
    {U I : Type 0}
    → Serde (RegistroRefresh U I)
    → RegistroRefresh U I
    → Result (RegistroRefresh U I)
    → Type 0
Delivers json reg x =
    (x ≡ ok reg)
    ⊎ (((i : Fault) × (x ≡ err (RedisError.redis i)))
        ⊎ ((t : Text) × (json.to_string (record reg { rotacionado = true }) ≡ inl t)
            × (x ≡ err (RedisError.serde t))))

module _ {U I : Type 0} (r : RedisServer) (json : Serde (RegistroRefresh U I))
    (laws : RedisLaws r) where
  open r use {Db}

  pub marcar-Delivers :
      (h : Text) (reg : RegistroRefresh U I) (a : Db) (x : Result (RegistroRefresh U I)) (b : Db)
      → marcar r json h reg a ≡ (x, b)
      → Delivers json reg x
  unfolding marcar
  marcar-Delivers h reg a (ok out) b e = inl (ap ok (marcar-ok r json laws h reg a e).0)
  marcar-Delivers h reg a (err i) b e =
      elim (serde-bind-fails (json.to_string (record reg { rotacionado = true })) _ a e) [
        | inl (t, failed, p) ↦ inr (inr (t, failed, ap err p))
        | inr (s, p) ↦ elim (command-bind-err (r.set_keepttl (chave_refresh h) s) _ a p) [
          | inl (f, q) ↦ inr (inl (f, ap err q))
          | inr (u, t, _, q) ↦ cc
        ]
      ]

  pub rotacionar-Delivers :
      (h : Text) (reg : RegistroRefresh U I) (a : Db) (x : Result (RegistroRefresh U I)) (b : Db)
      → reg.rotacionado ≡ false
      → rotacionar r json h reg a ≡ (x, b)
      → Delivers json reg x
  unfolding rotacionar por_uso
  rotacionar-Delivers h reg a x b fresh e =
      marcar-Delivers h reg a x b (subst (λ u. por_uso r json u h reg a ≡ (x, b)) fresh e)

  -- Two calls with one fresh token whose reads both come before their writes: the second read finds
  -- the record of the first, and neither call reports a reuse. Each returns that record, or the
  -- error of a command of its own, or the error of serialising the record marked as rotated.
  pub two_readers_deliver :
      (h : Text) (a t u b c : Db) (reg reg' : RegistroRefresh U I)
      (x y : Result (RegistroRefresh U I))
      → ler r json h a ≡ (ok reg, t)
      → ler r json h t ≡ (ok reg', u)
      → reg.rotacionado ≡ false
      → rotacionar r json h reg u ≡ (x, b)
      → rotacionar r json h reg' b ≡ (y, c)
      → (reg' ≡ reg) × Delivers json reg x × Delivers json reg y
  two_readers_deliver h a t u b c reg reg' x y first second fresh one two =
      let ((s, there, dec), same) = ler-ok r json laws h a first in
      let (later, _) = ler-ok r json laws h t second in
      let e : reg' ≡ reg =
        Guarda-unique r json t h reg' reg later (s, same.values (chave_refresh h) ∙ there, dec) in
      (
        e,
        rotacionar-Delivers h reg u x b fresh one,
        rotacionar-Delivers h reg b y c fresh (subst (λ z. rotacionar r json h z b ≡ (y, c)) e two),
      )
