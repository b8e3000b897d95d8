-- ===== src/Postgres/Security.antt =====
-- infrastructure_postgres/src/security.rs: who asks, and the one check of the repositories.
pub mod Scopes
use smart_core_assistant_v.Prelude.{
  ℕ, ◌≡◌, refl, sym, ap, ◌∙◌, Bool, Bool-cases, true, false, ◌&&◌, ◌||◌, List, [], ◌∷◌, ◌⊎◌, inl,
  inr, ◌↔◌, Text, txt, text_eq, text_eq_iff, ◌==◌, if◌then◌else◌, arith,
}
use smart_core_assistant_v.Redis.Server.{I64, nonneg, neg}
use smart_core_assistant_v.Postgres.Errors.{DbError}

pub record RequestContext (U : Type 0) : Type 0 where
  pub tenant_id : U
  pub user_id : I64
  pub user_scopes : List Text
  pub flow_permissions : List I64

abbrev pub i32_eq : I64 → I64 → Bool
i32_eq (nonneg m) (nonneg n) = m == n
i32_eq (neg m) (neg n) = m == n
i32_eq a b = false

abbrev pub any {ℓ} : {A : Type ℓ} → (A → Bool) → List A → Bool
any p [] = false
any p (x ∷ xs) = p x || any p xs

module _ {U : Type 0} where
  unfoldable pub has_permission : RequestContext U → Text → Bool
  has_permission ctx permission = any (λ p. text_eq p permission) ctx.user_scopes

  unfoldable pub has_flow_permission : RequestContext U → I64 → Bool
  has_flow_permission ctx flow_id =
      if has_permission ctx (txt "kanban:admin") || has_permission ctx (txt "tenant:admin")
      then true
      else any (i32_eq flow_id) ctx.flow_permissions

  unfoldable pub exigir_qualquer : RequestContext U → List Text → DbError ⊎ Unit {0}
  exigir_qualquer ctx escopos =
      if any (has_permission ctx) escopos then inr tt else inl DbError.permission_denied
