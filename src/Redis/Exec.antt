-- ===== src/Redis/Exec.antt =====
-- A method on a connection: it may fail with a `RedisError`, and what it wrote stays written. `?`
-- on a command turns its fault into `RedisError::Redis`, on serde its text into `RedisError::Serde`.
use smart_core_assistant_v.Prelude.{◌≡◌, refl, Text, ◌⊎◌, inl, inr}
use smart_core_assistant_v.Redis.Server.{Fault, Reply, answer, fault}
use smart_core_assistant_v.Redis.Errors.{RedisError}

pub data Result {ℓ} (A : Type ℓ) : Type ℓ where
  ok : A → Result A
  err : RedisError → Result A

abbrev pub Exec {ℓ} : Type 0 → Type ℓ → Type ℓ
Exec S A = S → Result A × S

abbrev pub of_reply {ℓ} : {A : Type ℓ} → Reply A → Result A
of_reply (answer a) = ok a
of_reply (fault e) = err (RedisError.redis e)

abbrev pub of_serde {ℓ} : {A : Type ℓ} → Text ⊎ A → Result A
of_serde (inl s) = err (RedisError.serde s)
of_serde (inr a) = ok a

module _ {ℓ} {S : Type 0} {A : Type ℓ} where
  abbrev pub command : (S → Reply A × S) → Exec S A
  command c s = let (a, s') = c s in (of_reply a, s')

  abbrev pub serde : Text ⊎ A → Exec S A
  serde r s = (of_serde r, s)

  abbrev pub pure : A → Exec S A
  pure a s = (ok a, s)

  abbrev pub raise : RedisError → Exec S A
  raise e s = (err e, s)

module _ {ℓ κ} {S : Type 0} {A : Type ℓ} {B : Type κ} where
  abbrev pub continue : Result A → (A → Exec S B) → Exec S B
  continue (ok a) f s = f a s
  continue (err e) f s = (err e, s)

  infixl 10 ◌>>=◌ ◌>>◌
  abbrev pub ◌>>=◌ : Exec S A → (A → Exec S B) → Exec S B
  ◌>>=◌ m f s = let (r, s') = m s in continue r f s'

  abbrev pub ◌>>◌ : Exec S A → Exec S B → Exec S B
  m >> n = m >>= λ _. n

pub serde-ok {ℓ} :
    {S : Type 0} {A : Type ℓ} (x : Text ⊎ A) (s : S) {a : A} {s' : S}
    → serde x s ≡ (ok a, s')
    → (x ≡ inr a) × (s ≡ s')
serde-ok (inr b) s h = (cc, cc)
serde-ok (inl e) s h = (cc, cc)

reply-ok {ℓ} :
    {S : Type 0} {A : Type ℓ} (x : Reply A × S) {a : A} {s' : S}
    → ◌≡◌ {A = Result A × S} (of_reply x.0, x.1) (ok a, s')
    → x ≡ (answer a, s')
reply-ok (answer b, s) h = cc
reply-ok (fault e, s) h = cc

pub command-ok {ℓ} :
    {S : Type 0} {A : Type ℓ} (c : S → Reply A × S) (s : S) {a : A} {s' : S}
    → command c s ≡ (ok a, s')
    → c s ≡ (answer a, s')
command-ok c s h = reply-ok (c s) h

module _ {ℓ κ} {S : Type 0} {A : Type ℓ} {B : Type κ} where
  -- What a block that returned says of its first step.
  reply-continue-ok :
      (x : Reply A × S) (f : A → Exec S B) {b : B} {s' : S}
      → continue (of_reply x.0) f x.1 ≡ (ok b, s')
      → (a : A) × (t : S) × (x ≡ (answer a, t)) × (f a t ≡ (ok b, s'))
  reply-continue-ok (answer a, t) f h = (a, t, refl, h)
  reply-continue-ok (fault e, t) f h = cc

  pub command-bind-ok :
      (c : S → Reply A × S) (f : A → Exec S B) (s : S) {b : B} {s' : S}
      → (command c >>= f) s ≡ (ok b, s')
      → (a : A) × (t : S) × (c s ≡ (answer a, t)) × (f a t ≡ (ok b, s'))
  command-bind-ok c f s h = reply-continue-ok (c s) f h

  pub serde-bind-ok :
      (x : Text ⊎ A) (f : A → Exec S B) (s : S) {b : B} {s' : S}
      → (serde x >>= f) s ≡ (ok b, s')
      → (a : A) × (x ≡ inr a) × (f a s ≡ (ok b, s'))
  serde-bind-ok (inr a) f s h = (a, refl, h)
  serde-bind-ok (inl e) f s h = cc

  continue-ok :
      (x : Result A × S) (f : A → Exec S B) {b : B} {s' : S}
      → continue x.0 f x.1 ≡ (ok b, s')
      → (a : A) × (t : S) × (x ≡ (ok a, t)) × (f a t ≡ (ok b, s'))
  continue-ok (ok a, t) f h = (a, t, refl, h)
  continue-ok (err e, t) f h = cc

  pub bind-ok :
      (m : Exec S A) (f : A → Exec S B) (s : S) {b : B} {s' : S}
      → (m >>= f) s ≡ (ok b, s')
      → (a : A) × (t : S) × (m s ≡ (ok a, t)) × (f a t ≡ (ok b, s'))
  bind-ok m f s h = continue-ok (m s) f h

  reply-continue-err :
      (x : Reply A × S) (f : A → Exec S B) {e : RedisError} {s' : S}
      → continue (of_reply x.0) f x.1 ≡ (err e, s')
      → ((i : Fault) × (e ≡ RedisError.redis i))
        ⊎ ((a : A) × (t : S) × (x ≡ (answer a, t)) × (f a t ≡ (err e, s')))
  reply-continue-err (answer a, t) f h = inr (a, t, refl, h)
  reply-continue-err (fault i, t) f h = inl (i, cc)

  -- What a block that failed says of its first step.
  pub command-bind-err :
      (c : S → Reply A × S) (f : A → Exec S B) (s : S) {e : RedisError} {s' : S}
      → (command c >>= f) s ≡ (err e, s')
      → ((i : Fault) × (e ≡ RedisError.redis i))
        ⊎ ((a : A) × (t : S) × (c s ≡ (answer a, t)) × (f a t ≡ (err e, s')))
  command-bind-err c f s h = reply-continue-err (c s) f h

  pub serde-bind-err :
      (x : Text ⊎ A) (f : A → Exec S B) (s : S) {e : RedisError} {s' : S}
      → (serde x >>= f) s ≡ (err e, s')
      → ((t : Text) × (e ≡ RedisError.serde t)) ⊎ ((a : A) × (f a s ≡ (err e, s')))
  serde-bind-err (inr a) f s h = inr (a, h)
  serde-bind-err (inl t) f s h = inl (t, cc)

  -- The same, with the text that the serialisation gave.
  pub serde-bind-fails :
      (x : Text ⊎ A) (f : A → Exec S B) (s : S) {e : RedisError} {s' : S}
      → (serde x >>= f) s ≡ (err e, s')
      → ((t : Text) × (x ≡ inl t) × (e ≡ RedisError.serde t)) ⊎ ((a : A) × (f a s ≡ (err e, s')))
  serde-bind-fails (inr a) f s h = inr (a, h)
  serde-bind-fails (inl t) f s h = inl (t, refl, cc)

  continue-err :
      (x : Result A × S) (f : A → Exec S B) {e : RedisError} {s' : S}
      → continue x.0 f x.1 ≡ (err e, s')
      → (x ≡ (err e, s')) ⊎ ((a : A) × (t : S) × (x ≡ (ok a, t)) × (f a t ≡ (err e, s')))
  continue-err (ok a, t) f h = inr (a, t, refl, h)
  continue-err (err i, t) f h = inl (cc)

  pub bind-err :
      (m : Exec S A) (f : A → Exec S B) (s : S) {e : RedisError} {s' : S}
      → (m >>= f) s ≡ (err e, s')
      → (m s ≡ (err e, s')) ⊎ ((a : A) × (t : S) × (m s ≡ (ok a, t)) × (f a t ≡ (err e, s')))
  bind-err m f s h = continue-err (m s) f h

-- The error is one that a command reported.
abbrev pub IsRedis : RedisError → Type 0
IsRedis e = (i : Fault) × (e ≡ RedisError.redis i)
