-- ===== src/Redis/Rotation.antt =====
-- Rotation of refresh tokens: a token is used once, a second use revokes its family.
use smart_core_assistant_v.Prelude.{
  ◌≡◌, ◌≢◌, sym, ap, subst, ◌∙◌, true, false, Option, none, some, ◌⊎◌, inl, inr, Text, text_eq,
  text_eq_refl, if◌then◌else◌, arith,
}
use smart_core_assistant_v.Redis.Server.{Fault, RedisServer, RedisLaws, SameView}
use smart_core_assistant_v.Redis.Keys.{chave_refresh, chave_refresh_familia}
use smart_core_assistant_v.Redis.Errors.{RedisError}
use smart_core_assistant_v.Redis.Exec.{
  Result, of_serde, ok, err, command-bind-err, bind-ok, bind-err,
}
use smart_core_assistant_v.Redis.Tokens.{
  RegistroRefresh, Serde, decodificar, revogar_familia, ler, marcar, por_uso, rotacionar,
  validar_e_rotacionar,
}
use smart_core_assistant_v.Redis.Records.{
  SerdeLaws, Guarda, Guarda-unique, ler-ok, marcar-ok, revogar_familia-ok, revogar_familia-err,
  por_uso-ok, por_uso-reuse, ler-reuse,
}

abbrev pub rotacionado_de : {U I : Type 0} → RegistroRefresh U I → RegistroRefresh U I
rotacionado_de reg = record reg { rotacionado = true }

-- A command failed, and the call reports it.
abbrev pub Faulty {ℓ} : {A : Type ℓ} → Result A → Type ℓ
Faulty x = (i : Fault) × (x ≡ err (RedisError.redis i))

module _ {U I : Type 0} (r : RedisServer) (json : Serde (RegistroRefresh U I))
    (laws : RedisLaws r) where
  open r use {Db}

  decodificar_of_Guarda :
      (o : Option Text) (a : Db) (reg : RegistroRefresh U I) (i : RedisError) (b : Db) (s : Text)
      → o ≡ some s
      → json.from_str s ≡ inr reg
      → decodificar r json o a ≢ (err i, b)
  decodificar_of_Guarda none a reg i b s p q e = cc
  decodificar_of_Guarda (some t) a reg i b s p q e =
      let same : json.from_str t ≡ inr reg = cc in cc (ap (λ x. of_serde x) same)

  pub ler_of_Guarda-err :
      (h : Text) (a : Db) (reg : RegistroRefresh U I) (i : RedisError) (b : Db)
      → Guarda r json a h reg
      → ler r json h a ≡ (err i, b)
      → Faulty {A = RegistroRefresh U I} (err i)
  unfolding ler
  ler_of_Guarda-err h a reg i b (s, there, dec) e =
      elim (command-bind-err (r.get (chave_refresh h)) (decodificar r json) a e) [
        | inl (f, p) ↦ (f, ap err p)
        | inr (x, t, got, p) ↦
            let (found, _) = laws.get_ok (chave_refresh h) a t x got in
            absurd (decodificar_of_Guarda x t reg i b s (found ∙ there) dec p)
      ]

  reuse_or_fault :
      (h : Text) (reg : RegistroRefresh U I) (a : Db) (i : RedisError) (b : Db)
      → por_uso r json true h reg a ≡ (err i, b)
      → (◌≡◌ {A = Result (RegistroRefresh U I)} (err i) (err RedisError.token_reuse))
        ⊎ Faulty {A = RegistroRefresh U I} (err i)
  unfolding por_uso
  reuse_or_fault h reg a i b e = elim (bind-err (revogar_familia r json reg.family_id) _ a e) [
    | inl p ↦ let (f, q) = revogar_familia-err r json laws reg.family_id a p in inr (f, ap err q)
    | inr (u, t, _, p) ↦ inl (cc)
  ]

module _ {U I : Type 0} (r : RedisServer) (json : Serde (RegistroRefresh U I)) (laws : RedisLaws r)
    (serde_laws : SerdeLaws json) where
  open r use {Db, value, ttl, has}

  -- A record found by a read is there after it.
  Guarda-SameView :
      (a b : Db) (h : Text) (reg : RegistroRefresh U I)
      → SameView r a b
      → Guarda r json a h reg
      → Guarda r json b h reg
  Guarda-SameView a b h reg same (s, p, q) = (s, same.values (chave_refresh h) ∙ p, q)

  pub marcar-Guarda :
      (h : Text) (reg : RegistroRefresh U I) (a : Db) {out : RegistroRefresh U I} {b : Db}
      → marcar r json h reg a ≡ (ok out, b)
      → (out ≡ reg)
        × Guarda r json b h (rotacionado_de reg)
        × (ttl b (chave_refresh h) ≡ ttl a (chave_refresh h))
        × ((j : Text) → text_eq (chave_refresh h) j ≡ false → value b j ≡ value a j)
  marcar-Guarda h reg a {b} e =
      let (same, (s, enc, put)) = marcar-ok r json laws h reg a e in
      let self : text_eq (chave_refresh h) (chave_refresh h) ≡ true =
        text_eq_refl (chave_refresh h) in
      (
        same,
        (
          s,
          ground (arith, put.values (chave_refresh h), self),
          serde_laws.round_trip (rotacionado_de reg) s enc,
        ),
        ground (arith, put.ttls (chave_refresh h), self),
        λ j other. ground (arith, put.values j),
      )

  -- A call that returns a record has found it stored for the token and not yet rotated; it leaves
  -- the same record stored as rotated with the time to live that it had, and no other key changed.
  pub validar_e_rotacionar-ok :
      (h : Text) (a b : Db) (reg : RegistroRefresh U I)
      → validar_e_rotacionar r json h a ≡ (ok reg, b)
      → Guarda r json a h reg
        × (reg.rotacionado ≡ false)
        × Guarda r json b h (rotacionado_de reg)
        × (ttl b (chave_refresh h) ≡ ttl a (chave_refresh h))
        × ((j : Text) → text_eq (chave_refresh h) j ≡ false → value b j ≡ value a j)
  unfolding validar_e_rotacionar rotacionar
  validar_e_rotacionar-ok h a b reg e =
      let (found, t, read, p) = bind-ok (ler r json h) (rotacionar r json h) a e in
      let (stored, same) = ler-ok r json laws h a read in
      let (fresh, write) = por_uso-ok r json laws found.rotacionado h found t p in
      let (out, kept, life, others) = marcar-Guarda h found t write in
      (
        subst (λ x. Guarda r json a h x) (sym out) stored,
        subst (λ (x : RegistroRefresh U I). x.rotacionado ≡ false) (sym out) fresh,
        subst (λ x. Guarda r json b h (rotacionado_de x)) (sym out) kept,
        life ∙ same.ttls (chave_refresh h),
        λ j other. others j other ∙ same.values j,
      )

  ler_of_Guarda :
      (h : Text) (a : Db) (reg : RegistroRefresh U I) (x : Result (RegistroRefresh U I)) (b : Db)
      → Guarda r json a h reg
      → ler r json h a ≡ (x, b)
      → ((x ≡ ok reg) × SameView r a b) ⊎ Faulty x
  ler_of_Guarda h a reg (ok found) b stored e =
      let (here, same) = ler-ok r json laws h a e in
      inl (ap ok (Guarda-unique r json a h found reg here stored), same)
  ler_of_Guarda h a reg (err i) b stored e =
      inr (ler_of_Guarda-err r json laws h a reg i b stored e)

  -- One call after another: once a token has been used, the next call on the data that it left
  -- reports a reuse, unless a command of its own fails; in no case does it return a record.
  pub used_once :
      (h : Text) (a b c : Db) (reg : RegistroRefresh U I) (x : Result (RegistroRefresh U I))
      → validar_e_rotacionar r json h a ≡ (ok reg, b)
      → validar_e_rotacionar r json h b ≡ (x, c)
      → (x ≡ err RedisError.token_reuse) ⊎ Faulty x
  unfolding validar_e_rotacionar rotacionar por_uso
  used_once h a b c reg (ok out) first second =
      let (_, _, marked, _, _) = validar_e_rotacionar-ok h a b reg first in
      let (stored, fresh, _, _, _) = validar_e_rotacionar-ok h b c out second in
      let e = Guarda-unique r json b h (rotacionado_de reg) out marked stored in
      cc (ap (λ (y : RegistroRefresh U I). y.rotacionado) e)
  used_once h a b c reg (err i) first second =
      let (_, _, marked, _, _) = validar_e_rotacionar-ok h a b reg first in
      elim (bind-err (ler r json h) (rotacionar r json h) b second) [
        | inl p ↦ inr (ler_of_Guarda-err r json laws h b (rotacionado_de reg) i c marked p)
        | inr (out, t, read, p) ↦
            let (stored, _) = ler-ok r json laws h b read in
            let e = Guarda-unique r json b h out (rotacionado_de reg) stored marked in
            let used : out.rotacionado ≡ true = ap (λ (y : RegistroRefresh U I). y.rotacionado) e in
            reuse_or_fault r json laws h out t i c
              (subst (λ u. por_uso r json u h out t ≡ (err i, c)) used p)
      ]

  -- The call reports a reuse only for a token whose record is stored as rotated, and then the
  -- family is gone: every token that the family's set named is deleted, the set is empty, and the
  -- tokens outside the set are as they were.
  pub reuse_revokes :
      (h : Text) (a b : Db)
      → validar_e_rotacionar r json h a ≡ (err RedisError.token_reuse, b)
      → (reg : RegistroRefresh U I) × Guarda r json a h reg
        × (reg.rotacionado ≡ true)
        × ((m : Text)
            → value b (chave_refresh m) ≡ (
                if has a (chave_refresh_familia reg.family_id) m
                then none
                else value a (chave_refresh m)))
        × ((m : Text) → has b (chave_refresh_familia reg.family_id) m ≡ false)
  unfolding validar_e_rotacionar rotacionar
  reuse_revokes h a b e = elim (bind-err (ler r json h) (rotacionar r json h) a e) [
    | inl p ↦ absurd (ler-reuse r json laws h a p)
    | inr (reg, t, read, p) ↦
        let (stored, same) = ler-ok r json laws h a read in
        let (used, gone) = por_uso-reuse r json laws reg.rotacionado h reg t p in
        let (tokens, family) = revogar_familia-ok r json laws reg.family_id t b gone in
        (
          reg,
          stored,
          used,
          λ m. ground (
            arith,
            tokens m,
            same.sets (chave_refresh_familia reg.family_id) m,
            same.values (chave_refresh m),
          ),
          family,
        )
  ]
