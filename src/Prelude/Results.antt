-- ===== src/Prelude/Results.antt =====
-- Results that may be an error.
use mathlib.Core.Path.{◌≡◌, refl}
use mathlib.Core.Logic.{◌⊎◌, inl, inr}
use mathlib.Core.Option.{Option, none, some}

module _ {E A B : Type 0} where
  infixl 10 ◌>>=◌
  abbrev pub ◌>>=◌ : E ⊎ A → (A → E ⊎ B) → E ⊎ B
  inl e >>= f = inl e
  inr a >>= f = f a

abbrev pub ok_or : {E A : Type 0} → E → Option A → E ⊎ A
ok_or e none = inl e
ok_or e (some a) = inr a

-- What a block that returned says of its first step.
pub bind_inr :
    {E A B : Type 0} (x : E ⊎ A) (f : A → E ⊎ B) {b : B}
    → (x >>= f) ≡ inr b
    → (a : A) × (x ≡ inr a) × (f a ≡ inr b)
bind_inr (inl e) f h = cc
bind_inr (inr a) f h = (a, refl, h)

pub ok_or-inr : {E A : Type 0} (e : E) (o : Option A) {a : A} → ok_or e o ≡ inr a → o ≡ some a
ok_or-inr e none h = cc
ok_or-inr e (some x) h = cc

pub sum_apart : {E A : Type 0} {e : E} {a : A} → inl e ≡ inr a → ⊥
sum_apart h = cc

pub inr_inj : {E A : Type 0} {a b : A} → ◌≡◌ {A = E ⊎ A} (inr a) (inr b) → a ≡ b
inr_inj h = cc

pub some_inj : {A : Type 0} {a b : A} → some a ≡ some b → a ≡ b
some_inj h = cc

pub option_apart : {A : Type 0} {a : A} → none ≡ some a → ⊥
option_apart h = cc
