-- ===== src/Redis/Issue.antt =====
-- Issuing a refresh token, and blocking an access token.
use smart_core_assistant_v.Prelude.{
  ℕ, suc, ◌<◌, ◌^◌, ◌≡◌, refl, sym, ap, subst, ◌∙◌, Bool, true, false, Option, none, some, ◌⊎◌, inl,
  inr, Text, txt, text_eq, text_eq_refl, Option-cases, if◌then◌else◌, arith,
}
use smart_core_assistant_v.Redis.Server.{RedisServer, RedisLaws, nonneg, answer}
use smart_core_assistant_v.Redis.Keys.{
  chave_refresh, chave_refresh_familia, chave_blocklist, text_eq-chave_refresh,
  text_eq-chave_blocklist, text_eq-familia-refresh, text_eq-blocklist-refresh,
}
use smart_core_assistant_v.Redis.Exec.{
  Result, ok, err, command, command-ok, command-bind-ok, serde-bind-ok, bind-err,
}
use smart_core_assistant_v.Redis.Tokens.{
  RegistroRefresh, Serde, novo_registro, as_i64, armazenar, ler, rotacionar, validar_e_rotacionar,
  bloquear, esta_bloqueado,
}
use smart_core_assistant_v.Redis.Records.{SerdeLaws, Guarda, Guarda-unique, ler-ok}
use smart_core_assistant_v.Redis.Rotation.{Faulty, validar_e_rotacionar-ok, ler_of_Guarda-err}
use smart_core_assistant_v.Redis.Race.{Delivers, rotacionar-Delivers}

as_i64_lem : (n : ℕ) → n < 2 ^ 63 → as_i64 n ≡ nonneg n
as_i64_lem n h = ground arith

module _ {U I : Type 0} (r : RedisServer) (json : Serde (RegistroRefresh U I)) (laws : RedisLaws r)
    (serde_laws : SerdeLaws json) where
  open r use {Db, value, ttl, has}

  -- A token stored with a time to live that fits in an `i64` and is not zero is there as a fresh
  -- record, for that time, and its family names it; the other tokens' records are as they were.
  pub armazenar-ok :
      (h : Text) (user : I) (tenant : Option U) (family : Text) (n : ℕ) (a b : Db)
      → suc n < 2 ^ 63
      → armazenar r json h user tenant family (suc n) a ≡ (ok tt, b)
      → Guarda r json b h (novo_registro user tenant family)
        × (ttl b (chave_refresh h) ≡ some (suc n))
        × (has b (chave_refresh_familia family) h ≡ true)
        × ((m : Text) → text_eq h m ≡ false → value b (chave_refresh m) ≡ value a (chave_refresh m))
  unfolding armazenar
  armazenar-ok h user tenant family n a b fits e =
      let fam = chave_refresh_familia family in
      let (s, enc, p) = serde-bind-ok (json.to_string (novo_registro user tenant family)) _ a e in
      let (_, t, stored, q) = command-bind-ok (r.set_ex (chave_refresh h) s (suc n)) _ a p in
      let (k, u, added, q') = command-bind-ok (r.sadd fam h) _ t q in
      let (x, v, kept, last) = command-bind-ok (r.expire fam (as_i64 (suc n))) _ u q' in
      let end : v ≡ b = cc in
      let put = laws.set_ex_ok (chave_refresh h) s (suc n) a t stored in
      let (values, ttls, sets) = laws.sadd_ok fam h t u k added in
      let (values', sets', ttls') =
        laws.expire_ok fam n u v x
          (subst (λ z. r.expire fam z u ≡ (answer x, v)) (as_i64_lem (suc n) fits) kept) in
      let self = text_eq_refl (chave_refresh h) in
      (
        (
          s,
          ground (
            arith,
            put.values (chave_refresh h),
            self,
            values (chave_refresh h),
            values' (chave_refresh h),
            ap (λ c. value c (chave_refresh h)) end,
          ),
          serde_laws.round_trip (novo_registro user tenant family) s enc,
        ),
        ground (
          arith,
          put.ttls (chave_refresh h),
          self,
          ttls (chave_refresh h),
          ttls' (chave_refresh h),
          text_eq-familia-refresh family h,
          ap (λ c. ttl c (chave_refresh h)) end,
        ),
        ground (
          arith,
          sets fam h,
          sets' fam h,
          text_eq_refl fam,
          text_eq_refl h,
          ap (λ c. has c fam h) end,
        ),
        λ m other. ground (
          arith,
          put.values (chave_refresh m),
          text_eq-chave_refresh h m,
          values (chave_refresh m),
          values' (chave_refresh m),
          ap (λ c. value c (chave_refresh m)) end,
        ),
      )

  -- A token that was stored with a time to live between 1 and 2^63 - 1 and not used since can be
  -- used: the call returns the record that was stored, or the error of a command of its own, or the
  -- error of serialising the record marked as rotated; it reports neither a reuse nor a missing token.
  pub stored_rotates :
      (h : Text) (user : I) (tenant : Option U) (family : Text) (n : ℕ) (a b : Db)
      (x : Result (RegistroRefresh U I)) (c : Db)
      → suc n < 2 ^ 63
      → armazenar r json h user tenant family (suc n) a ≡ (ok tt, b)
      → validar_e_rotacionar r json h b ≡ (x, c)
      → Faulty x ⊎ Delivers json (novo_registro user tenant family) x
  unfolding validar_e_rotacionar
  stored_rotates h user tenant family n a b (err i) c fits e used =
      let (stored, _, _, _) = armazenar-ok h user tenant family n a b fits e in
      let reg = novo_registro user tenant family in
      elim (bind-err (ler r json h) (rotacionar r json h) b used) [
        | inl p ↦ inl (ler_of_Guarda-err r json laws h b reg i c stored p)
        | inr (out, t, read, p) ↦
            let (there, _) = ler-ok r json laws h b read in
            let same : out ≡ reg = Guarda-unique r json b h out reg there stored in
            inr (
              rotacionar-Delivers r json laws h reg t (err i) c refl
                (subst (λ z. rotacionar r json h z t ≡ (err i, c)) same p))
      ]
  stored_rotates h user tenant family n a b (ok out) c fits e used =
      let (stored, _, _, _) = armazenar-ok h user tenant family n a b fits e in
      let (there, _, _, _, _) = validar_e_rotacionar-ok r json laws serde_laws h b c out used in
      inr
        (inl (ap ok (Guarda-unique r json b h out (novo_registro user tenant family) there stored)))

abbrev pub present : Option Text → Bool
present none = false
present (some _) = true

module _ (r : RedisServer) (laws : RedisLaws r) where
  open r use {Db, value, ttl, has}

  exists-present :
      (k : Text) (a b : Db) (x : Bool)
      → ((m : Text) → has a k m ≡ false)
      → command (r.exists k) a ≡ (ok x, b)
      → x ≡ present (value a k)
  exists-present k a b x no_set e =
      let (_, if_there, if_absent) = laws.exists_ok k a b x (command-ok (r.exists k) a e) in
      elim (Option-cases (value a k)) [
        | inl p ↦ rw p (if_absent p no_set)
        | inr (v, p) ↦ rw p (if_there v p)
      ]

  -- A blocked access token is reported as blocked, and blocking it changes the answer for no other
  -- token and no refresh token. (The blocklist's keys hold no sets.)
  pub bloquear-blocks :
      (jti jti' : Text) (n : ℕ) (a b c : Db) (x : Bool)
      → ((m : Text) → has a (chave_blocklist jti') m ≡ false)
      → bloquear r jti n a ≡ (ok tt, b)
      → esta_bloqueado r jti' b ≡ (ok x, c)
      → (x ≡ (if text_eq jti jti' then true else present (value a (chave_blocklist jti'))))
        × (ttl b (chave_blocklist jti) ≡ some n)
        × ((m : Text) → value b (chave_refresh m) ≡ value a (chave_refresh m))
  unfolding bloquear esta_bloqueado
  bloquear-blocks jti jti' n a b c x no_set e asked =
      let (_, t, stored, last) =
        command-bind-ok (r.set_ex (chave_blocklist jti) (txt "1") n) _ a e in
      let end : t ≡ b = cc in
      let put = laws.set_ex_ok (chave_blocklist jti) (txt "1") n a t stored in
      let key = text_eq-chave_blocklist jti jti' in
      let still : (m : Text) → has t (chave_blocklist jti') m ≡ false =
        λ m. ground (arith, put.sets (chave_blocklist jti') m, no_set m) in
      let answered =
        exists-present (chave_blocklist jti') t c x still
          (subst (λ z. command (r.exists (chave_blocklist jti')) z ≡ (ok x, c)) (sym end) asked) in
      (
        answered ∙ ground (arith, put.values (chave_blocklist jti'), key),
        ground (
          arith,
          put.ttls (chave_blocklist jti),
          text_eq_refl (chave_blocklist jti),
          ap (λ z. ttl z (chave_blocklist jti)) end,
        ),
        λ m. ground (
          arith,
          put.values (chave_refresh m),
          text_eq-blocklist-refresh jti m,
          ap (λ z. value z (chave_refresh m)) end,
        ),
      )
