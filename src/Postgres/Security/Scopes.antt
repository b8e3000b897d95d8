-- ===== src/Postgres/Security/Scopes.antt =====
-- What the check of the repositories grants: infrastructure_postgres/src/security.rs.
use mathlib.Core.List.{Memᴰ}
use mathlib.Core.List.Memᴰ.{head, tail}
use smart_core_assistant_v.Prelude.{
  ◌≡◌, refl, sym, ap, ◌∙◌, subst, Bool, Bool-cases, true, false, ◌||◌, List, [], ◌∷◌, ◌⊎◌, inl, inr,
  Text, text_eq, text_eq_iff, text_eq_refl,
}
use smart_core_assistant_v.Prelude.Results.{sum_apart}
use smart_core_assistant_v.Postgres.Errors.{DbError}
use smart_core_assistant_v.Postgres.Security.{RequestContext, any, has_permission, exigir_qualquer}

any_found :
    {A : Type 0} (p : A → Bool) (xs : List A) → any p xs ≡ true → (x : A) × Memᴰ x xs × (p x ≡ true)
any_found p [] h = cc
any_found p (x ∷ xs) h = elim (Bool-cases (p x)) [
  | inl granted ↦ (x, head refl, granted)
  | inr denied ↦ let (y, m, q) = any_found p xs (rw denied at h) in (y, tail m, q)
]

or_true : (b : Bool) → (b || true) ≡ true
or_true true = refl
or_true false = refl

any_of :
    {A : Type 0} (p : A → Bool) {x : A} (xs : List A) → Memᴰ x xs → p x ≡ true → any p xs ≡ true
any_of p [] m h = elim m [ ]
any_of p (y ∷ ys) (head e) h = rw (sym (ap p e) ∙ h) refl
any_of p (y ∷ ys) (tail m) h = rw (any_of p ys m h) (or_true (p y))

module _ {U : Type 0} where
  pub has_permission_of :
      (ctx : RequestContext U) (e : Text) → Memᴰ e ctx.user_scopes → has_permission ctx e ≡ true
  unfolding has_permission
  has_permission_of ctx e m = any_of (λ p. text_eq p e) ctx.user_scopes m (text_eq_refl e)

  permission_found :
      (ctx : RequestContext U) (e : Text) → has_permission ctx e ≡ true → Memᴰ e ctx.user_scopes
  unfolding has_permission
  permission_found ctx e h =
      let (p, m, q) = any_found (λ p. text_eq p e) ctx.user_scopes h in
      subst (λ z. Memᴰ z ctx.user_scopes) ((text_eq_iff p e).0 q) m

  -- The check passes exactly when one of the scopes asked for is among those that the user holds; an
  -- empty list of scopes is always refused. A refusal is PermissionDenied.
  pub exigir_qualquer_iff :
      (ctx : RequestContext U) (escopos : List Text)
      → (exigir_qualquer ctx escopos ≡ inr tt
          → (e : Text) × Memᴰ e escopos × Memᴰ e ctx.user_scopes)
        × ((e : Text)
            → Memᴰ e escopos
            → Memᴰ e ctx.user_scopes
            → exigir_qualquer ctx escopos ≡ inr tt)
        × ((exigir_qualquer ctx escopos ≡ inr tt)
            ⊎ (exigir_qualquer ctx escopos ≡ inl DbError.permission_denied))
  unfolding exigir_qualquer
  exigir_qualquer_iff ctx escopos = (
    (λ h. elim (Bool-cases (any (has_permission ctx) escopos)) [
      | inl granted ↦
          let (e, m, q) = any_found (has_permission ctx) escopos granted in
          (e, m, permission_found ctx e q)
      | inr denied ↦ absurd (sum_apart (rw denied at h))
    ]),
    (λ e m held. rw (any_of (has_permission ctx) escopos m (has_permission_of ctx e held)) refl),
    (elim (Bool-cases (any (has_permission ctx) escopos)) [
      | inl granted ↦ inl (rw granted refl)
      | inr denied ↦ inr (rw denied refl)
    ]),
  )
