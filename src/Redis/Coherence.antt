-- ===== src/Redis/Coherence.antt =====
-- Does a `RedisError` keep its code when it becomes an `AppError`?
use smart_core_assistant_v.Prelude.{
  ◌≡◌, ◌↔◌, refl, Bool, false, not, ◌&&◌, Bool-cases, inl, inr, arith, if◌then◌else◌,
}
use smart_core_assistant_v.ErrorCore.Code.{ErrorCode}
use smart_core_assistant_v.ErrorCore.App
use smart_core_assistant_v.ErrorCore.App.{AppError, says_unavailable}
use smart_core_assistant_v.Redis.Errors
use smart_core_assistant_v.Redis.Errors.{RedisError, is_unavailable, to_app_error}

-- A fault that is none of connection, timeout and input/output, and whose text says all the same
-- that something is unavailable.
abbrev pub misleading : RedisError → Bool
misleading (RedisError.redis e) = not (is_unavailable e) && says_unavailable e.text
misleading _ = false

key_iff :
    (b : Bool)
    → ((if b then ErrorCode.cache_unavailable else ErrorCode.cache_key_not_found)
        ≡ ErrorCode.cache_key_not_found)
      ↔ (b ≡ false)
key_iff b = ground arith

-- The `AppError` has the code of the `RedisError` it is made from exactly when the error is not
-- misleading in that sense.
pub redis_code-to_app_error_iff :
    (e : RedisError) → (App.code (to_app_error e) ≡ Errors.code e) ↔ (misleading e ≡ false)
unfolding App.code to_app_error Errors.code Errors.display
redis_code-to_app_error_iff (RedisError.redis e) = elim (Bool-cases (is_unavailable e)) [
  | inl p ↦ rw p (λ _. refl, λ _. refl)
  | inr p ↦ rw p (key_iff (says_unavailable e.text))
]
redis_code-to_app_error_iff (RedisError.serde s) = (λ _. refl, λ _. refl)
redis_code-to_app_error_iff (RedisError.config_error s) = (λ _. refl, λ _. refl)
redis_code-to_app_error_iff RedisError.not_found = (λ _. refl, λ _. refl)
redis_code-to_app_error_iff RedisError.token_reuse = (λ _. refl, λ _. refl)
