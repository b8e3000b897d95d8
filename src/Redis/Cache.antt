-- ===== src/Redis/Cache.antt =====
-- infrastructure_redis/src/cache.rs: the flow permissions of a user, for a time. `U` is the type of
-- `Uuid`, `I` that of `i32`.
use smart_core_assistant_v.Prelude.{
  ℕ, ◌≡◌, ap, ◌∙◌, Option, none, some, List, inr, Text, text_eq, text_eq_refl, true, arith,
}
use smart_core_assistant_v.Redis.Server.{RedisServer, RedisLaws}
use smart_core_assistant_v.Redis.Keys.{
  chave_flow_permissions, chave_refresh, text_eq-flow_permissions-refresh,
}
use smart_core_assistant_v.Redis.Exec.{
  Exec, ok, command, serde, pure, ◌>>=◌, ◌>>◌, command-bind-ok, serde-bind-ok,
}
use smart_core_assistant_v.Redis.Tokens.{Serde}
use smart_core_assistant_v.Redis.Records.{SerdeLaws}

abbrev pub ttl_flow_permissions_segundos : ℕ
ttl_flow_permissions_segundos = 60

module _ {U I : Type 0} (r : RedisServer) (json : Serde (List I)) (show_uuid : U → Text)
    (show_i32 : I → Text) where
  open r use {Db}

  unfoldable pub definir_flow_permissions : U → I → List I → ℕ → Exec Db (Unit {0})
  definir_flow_permissions tenant_id user_id flows ttl_segundos = do
    valor ← serde (json.to_string flows)
    command
        (r.set_ex (chave_flow_permissions show_uuid show_i32 tenant_id user_id) valor ttl_segundos)
    pure tt

  abbrev pub ler_flows : Option Text → Exec Db (Option (List I))
  ler_flows none = pure none
  ler_flows (some s) = serde (json.from_str s) >>= λ flows. pure (some flows)

  unfoldable pub obter_flow_permissions : U → I → Exec Db (Option (List I))
  obter_flow_permissions tenant_id user_id = do
    valor ← command (r.get (chave_flow_permissions show_uuid show_i32 tenant_id user_id))
    ler_flows valor

  unfoldable pub invalidar : U → I → Exec Db (Unit {0})
  invalidar tenant_id user_id = do
    command (r.del (chave_flow_permissions show_uuid show_i32 tenant_id user_id))
    pure tt

module _ {U I : Type 0} (r : RedisServer) (json : Serde (List I)) (show_uuid : U → Text)
    (show_i32 : I → Text) (laws : RedisLaws r) (serde_laws : SerdeLaws json) where
  open r use {Db, value, ttl}

  ler_flows-some :
      (o : Option Text) (s : Text) (flows : List I) (a b : Db) (out : Option (List I))
      → o ≡ some s
      → json.from_str s ≡ inr flows
      → ler_flows r json show_uuid show_i32 o a ≡ (ok out, b)
      → out ≡ some flows
  ler_flows-some none s flows a b out p q e = cc
  ler_flows-some (some t) s flows a b out p q e =
      let (found, dec, last) = serde-bind-ok (json.from_str t) _ a e in
      let same : json.from_str t ≡ inr flows = cc in cc

  ler_flows-none :
      (o : Option Text) (a b : Db) (out : Option (List I))
      → o ≡ none
      → ler_flows r json show_uuid show_i32 o a ≡ (ok out, b)
      → out ≡ none
  ler_flows-none none a b out p e = cc
  ler_flows-none (some t) a b out p e = cc

  -- What was stored for a user is what a read that succeeds finds, until it is invalidated; it is
  -- stored for the given time, and no refresh token's record is touched.
  pub definir-obter :
      (tenant_id : U) (user_id : I) (flows : List I) (n : ℕ) (a b c : Db) (out : Option (List I))
      → definir_flow_permissions r json show_uuid show_i32 tenant_id user_id flows n a ≡ (ok tt, b)
      → obter_flow_permissions r json show_uuid show_i32 tenant_id user_id b ≡ (ok out, c)
      → (out ≡ some flows)
        × (ttl b (chave_flow_permissions show_uuid show_i32 tenant_id user_id) ≡ some n)
        × ((h : Text) → value b (chave_refresh h) ≡ value a (chave_refresh h))
  unfolding definir_flow_permissions obter_flow_permissions
  definir-obter tenant_id user_id flows n a b c out set got =
      let key = chave_flow_permissions show_uuid show_i32 tenant_id user_id in
      let self : text_eq key key ≡ true = text_eq_refl key in
      let (s, enc, p) = serde-bind-ok (json.to_string flows) _ a set in
      let (_, t, stored, last) = command-bind-ok (r.set_ex key s n) _ a p in
      let end : t ≡ b = cc in
      let put = laws.set_ex_ok key s n a t stored in
      let (o, u, read, q) =
        command-bind-ok (r.get key) (ler_flows r json show_uuid show_i32) b got in
      let (found, same) = laws.get_ok key b u o read in
      let there : value b key ≡ some s =
        ground (arith, put.values key, ap (λ z. value z key) end) in
      (
        ler_flows-some o s flows u c out (found ∙ there) (serde_laws.round_trip flows s enc) q,
        ground (arith, put.ttls key, ap (λ z. ttl z key) end),
        λ h. ground (
          arith,
          put.values (chave_refresh h),
          text_eq-flow_permissions-refresh show_uuid show_i32 tenant_id user_id h,
          ap (λ z. value z (chave_refresh h)) end,
        ),
      )

  -- After an invalidation a read that succeeds is a miss.
  pub invalidar-obter :
      (tenant_id : U) (user_id : I) (a b c : Db) (out : Option (List I))
      → invalidar r json show_uuid show_i32 tenant_id user_id a ≡ (ok tt, b)
      → obter_flow_permissions r json show_uuid show_i32 tenant_id user_id b ≡ (ok out, c)
      → out ≡ none
  unfolding invalidar obter_flow_permissions
  invalidar-obter tenant_id user_id a b c out gone got =
      let key = chave_flow_permissions show_uuid show_i32 tenant_id user_id in
      let (k, t, deleted, last) = command-bind-ok (r.del key) _ a gone in
      let end : t ≡ b = cc in
      let put = laws.del_ok key a t k deleted in
      let (o, u, read, q) =
        command-bind-ok (r.get key) (ler_flows r json show_uuid show_i32) b got in
      let (found, same) = laws.get_ok key b u o read in
      let missing : value b key ≡ none =
        ground (arith, put.values key, text_eq_refl key, ap (λ z. value z key) end) in
      ler_flows-none o u c out (found ∙ missing) q
