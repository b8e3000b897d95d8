-- ===== src/Redis/Records.antt =====
-- What each step of the token store does to the data, when its commands succeed.
use smart_core_assistant_v.Prelude.{
  ◌≡◌, ◌≢◌, refl, sym, ap, subst, ◌∙◌, Bool, true, false, Option, none, some, List, [], ◌∷◌, ◌⊎◌,
  inl, inr, Text, text_eq_refl, if◌then◌else◌, arith,
}
use smart_core_assistant_v.Redis.Server.{RedisServer, RedisLaws, SameView, Replaced, elem}
use smart_core_assistant_v.Redis.Keys.{
  chave_refresh, chave_refresh_familia, text_eq-chave_refresh, text_eq-refresh-familia,
  text_eq-familia-refresh,
}
use smart_core_assistant_v.Redis.Errors.{RedisError}
use smart_core_assistant_v.Redis.Exec.{
  ok, err, command-bind-ok, command-bind-err, serde-bind-ok, serde-bind-err, bind-ok, bind-err,
  serde-ok, IsRedis, serde,
}
use smart_core_assistant_v.Redis.Tokens.{
  RegistroRefresh, Serde, decodificar, apagar, revogar_familia, ler, marcar, por_uso,
}

-- serde_json reads back what it wrote.
pub record SerdeLaws {A : Type 0} (json : Serde A) : Type 0 where
  pub round_trip : (a : A) (s : Text) → json.to_string a ≡ inr s → json.from_str s ≡ inr a

inr-injective : {A B : Type 0} {a b : B} → ◌≡◌ {A = A ⊎ B} (inr a) (inr b) → a ≡ b
inr-injective h = cc

module _ {U I : Type 0} (r : RedisServer) (json : Serde (RegistroRefresh U I)) where
  open r use {Db, value}

  -- The data hold the record `reg` for the token `h`.
  abbrev pub Guarda : Db → Text → RegistroRefresh U I → Type 0
  Guarda db h reg = (s : Text) × (value db (chave_refresh h) ≡ some s) × (json.from_str s ≡ inr reg)

  pub Guarda-unique :
      (db : Db) (h : Text) (a b : RegistroRefresh U I) → Guarda db h a → Guarda db h b → a ≡ b
  Guarda-unique db h a b (s, p, p') (t, q, q') =
      let e : s ≡ t = cc in inr-injective (sym p' ∙ ap json.from_str e ∙ q')

serde-ne-reuse :
    {A S : Type 0} (x : Text ⊎ A) (a : S) {b : S} → serde x a ≢ (err RedisError.token_reuse, b)
serde-ne-reuse (inl t) a e = cc
serde-ne-reuse (inr y) a e = cc

module _ {U I : Type 0} (r : RedisServer) (json : Serde (RegistroRefresh U I))
    (laws : RedisLaws r) where
  open r use {Db, value, ttl, has}

  decodificar-ok :
      (o : Option Text) (a : Db) {reg : RegistroRefresh U I} {b : Db}
      → decodificar r json o a ≡ (ok reg, b)
      → (s : Text) × (o ≡ some s) × (json.from_str s ≡ inr reg) × (a ≡ b)
  decodificar-ok none a h = cc
  decodificar-ok (some s) a h =
      let (dec, same) = serde-ok (json.from_str s) a h in (s, refl, dec, same)

  pub ler-ok :
      (h : Text) (a : Db) {reg : RegistroRefresh U I} {b : Db}
      → ler r json h a ≡ (ok reg, b)
      → Guarda r json a h reg × SameView r a b
  unfolding ler
  ler-ok h a e =
      let (x, t, got, p) = command-bind-ok (r.get (chave_refresh h)) (decodificar r json) a e in
      let (found, same) = laws.get_ok (chave_refresh h) a t x got in
      let (s, q, dec, last) = decodificar-ok x t p in
      ((s, sym found ∙ q, dec), subst (λ c. SameView r a c) last same)

  pub marcar-ok :
      (h : Text) (reg : RegistroRefresh U I) (a : Db) {out : RegistroRefresh U I} {b : Db}
      → marcar r json h reg a ≡ (ok out, b)
      → (out ≡ reg)
        × ((s : Text) × (json.to_string (record reg { rotacionado = true }) ≡ inr s)
            × Replaced r (chave_refresh h) (some s) (ttl a (chave_refresh h)) a b)
  unfolding marcar
  marcar-ok h reg a {b = b} e =
      let (s, enc, p) = serde-bind-ok (json.to_string (record reg { rotacionado = true })) _ a e in
      let (x, t, set, q) = command-bind-ok (r.set_keepttl (chave_refresh h) s) _ a p in
      let there : t ≡ b = cc in
      (
        cc,
        (
          s,
          enc,
          subst (λ c. Replaced r (chave_refresh h) (some s) (ttl a (chave_refresh h)) a c) there
              (laws.set_keepttl_ok (chave_refresh h) s a t set),
        ),
      )

  -- The loop deletes the tokens of the list, and touches no other token and no family.
  pub apagar-ok :
      (ms : List Text) (a b : Db)
      → apagar r json ms a ≡ (ok tt, b)
      → ((m : Text)
          → value b (chave_refresh m) ≡ (if elem m ms then none else value a (chave_refresh m)))
        × ((f m : Text) → has b (chave_refresh_familia f) m ≡ has a (chave_refresh_familia f) m)
  unfolding apagar elem
  apagar-ok [] a b e =
      let same : a ≡ b = cc in
      (
        λ m. ap (λ c. value c (chave_refresh m)) (sym same),
        λ f m. ap (λ c. has c (chave_refresh_familia f) m) (sym same),
      )
  apagar-ok (x ∷ ms) a b e =
      let (n, t, deleted, p) =
        command-bind-ok (r.del (chave_refresh x)) (λ _. apagar r json ms) a e in
      let one = laws.del_ok (chave_refresh x) a t n deleted in
      let (tokens, families) = apagar-ok ms t b p in
      (
        λ m. ground (arith, tokens m, one.values (chave_refresh m), text_eq-chave_refresh x m),
        λ f m. ground (
          arith,
          families f m,
          one.sets (chave_refresh_familia f) m,
          text_eq-refresh-familia x f,
        ),
      )

  pub revogar_familia-ok :
      (f : Text) (a b : Db)
      → revogar_familia r json f a ≡ (ok tt, b)
      → ((m : Text)
          → value b (chave_refresh m)
            ≡ (if has a (chave_refresh_familia f) m then none else value a (chave_refresh m)))
        × ((m : Text) → has b (chave_refresh_familia f) m ≡ false)
  unfolding revogar_familia
  revogar_familia-ok f a b e =
      let (ms, t, listed, p) = command-bind-ok (r.smembers (chave_refresh_familia f)) _ a e in
      let (same, members) = laws.smembers_ok (chave_refresh_familia f) a t ms listed in
      let (u, t', gone, q) = bind-ok (apagar r json ms) _ t p in
      let (tokens, families) = apagar-ok ms t t' gone in
      let (n, t'', deleted, last) = command-bind-ok (r.del (chave_refresh_familia f)) _ t' q in
      let end : t'' ≡ b = cc in
      let one = laws.del_ok (chave_refresh_familia f) t' t'' n deleted in
      (
        λ m. ground (
          arith,
          one.values (chave_refresh m),
          text_eq-familia-refresh f m,
          tokens m,
          members m,
          same.values (chave_refresh m),
          ap (λ c. value c (chave_refresh m)) end,
        ),
        λ m. ground (
          arith,
          one.sets (chave_refresh_familia f) m,
          text_eq_refl (chave_refresh_familia f),
          ap (λ c. has c (chave_refresh_familia f) m) end,
        ),
      )

  apagar-err :
      (ms : List Text) (a : Db) {e : RedisError} {b : Db}
      → apagar r json ms a ≡ (err e, b)
      → IsRedis e
  unfolding apagar
  apagar-err [] a h = cc
  apagar-err (x ∷ ms) a h =
      elim (command-bind-err (r.del (chave_refresh x)) (λ _. apagar r json ms) a h) [
        | inl i ↦ i
        | inr (n, t, _, p) ↦ apagar-err ms t p
      ]

  -- Revoking a family fails only where a command fails.
  pub revogar_familia-err :
      (f : Text) (a : Db) {e : RedisError} {b : Db}
      → revogar_familia r json f a ≡ (err e, b)
      → IsRedis e
  unfolding revogar_familia
  revogar_familia-err f a h = elim (command-bind-err (r.smembers (chave_refresh_familia f)) _ a h) [
    | inl i ↦ i
    | inr (ms, t, _, p) ↦ elim (bind-err (apagar r json ms) _ t p) [
      | inl q ↦ apagar-err ms t q
      | inr (u, t', _, q) ↦ elim (command-bind-err (r.del (chave_refresh_familia f)) _ t' q) [
        | inl i ↦ i
        | inr (n, t'', _, last) ↦ cc
      ]
    ]
  ]

  pub por_uso-ok :
      (used : Bool) (h : Text) (reg : RegistroRefresh U I) (a : Db) {out : RegistroRefresh U I}
      {b : Db}
      → por_uso r json used h reg a ≡ (ok out, b)
      → (used ≡ false) × (marcar r json h reg a ≡ (ok out, b))
  unfolding por_uso
  por_uso-ok true h reg a e =
      let (u, t, _, p) = bind-ok (revogar_familia r json reg.family_id) _ a e in cc
  por_uso-ok false h reg a e = (refl, e)

  pub marcar-err :
      (h : Text) (reg : RegistroRefresh U I) (a : Db) {b : Db}
      → marcar r json h reg a ≢ (err RedisError.token_reuse, b)
  unfolding marcar
  marcar-err h reg a e =
      elim (serde-bind-err (json.to_string (record reg { rotacionado = true })) _ a e) [
        | inl (t, p) ↦ cc
        | inr (s, p) ↦ elim (command-bind-err (r.set_keepttl (chave_refresh h) s) _ a p) [
          | inl (i, q) ↦ cc
          | inr (u, t, _, q) ↦ cc
        ]
      ]

  pub por_uso-reuse :
      (used : Bool) (h : Text) (reg : RegistroRefresh U I) (a : Db) {b : Db}
      → por_uso r json used h reg a ≡ (err RedisError.token_reuse, b)
      → (used ≡ true) × (revogar_familia r json reg.family_id a ≡ (ok tt, b))
  unfolding por_uso
  por_uso-reuse true h reg a e = elim (bind-err (revogar_familia r json reg.family_id) _ a e) [
    | inl p ↦ let (i, q) = revogar_familia-err reg.family_id a p in cc
    | inr (u, t, p, q) ↦ (refl, cc)
  ]
  por_uso-reuse false h reg a e = absurd (marcar-err h reg a e)

  decodificar-reuse :
      (o : Option Text) (a : Db) {b : Db} → decodificar r json o a ≢ (err RedisError.token_reuse, b)
  decodificar-reuse none a e = cc
  decodificar-reuse (some s) a e = serde-ne-reuse (json.from_str s) a e

  pub ler-reuse : (h : Text) (a : Db) {b : Db} → ler r json h a ≢ (err RedisError.token_reuse, b)
  unfolding ler
  ler-reuse h a e = elim (command-bind-err (r.get (chave_refresh h)) (decodificar r json) a e) [
    | inl (i, p) ↦ cc
    | inr (x, t, _, p) ↦ decodificar-reuse x t p
  ]
