-- ===== src/Prelude/Steps.antt =====
-- A step on the surroundings `W`: a call that may fail, where what it did stays done.
use mathlib.Core.Path.{◌≡◌, refl}
use mathlib.Core.Logic.{◌⊎◌, inl, inr}

abbrev pub Step : Type 0 → Type 0 → Type 0 → Type 0
Step W E A = W → (E ⊎ A) × W

module _ {W E A : Type 0} where
  abbrev pub pure : A → Step W E A
  pure a w = (inr a, w)

  abbrev pub raise : E → Step W E A
  raise e w = (inl e, w)

  -- A result that is there already.
  abbrev pub lift : E ⊎ A → Step W E A
  lift r w = (r, w)

abbrev pub mapped : {E F A : Type 0} → (E → F) → E ⊎ A → F ⊎ A
mapped f (inl e) = inl (f e)
mapped f (inr a) = inr a

-- `map_err`
abbrev pub map_err : {W E F A : Type 0} → (E → F) → Step W E A → Step W F A
map_err f m w = let (r, w') = m w in (mapped f r, w')

module _ {W E A B : Type 0} where
  abbrev pub continue : E ⊎ A → (A → Step W E B) → Step W E B
  continue (inr a) f w = f a w
  continue (inl e) f w = (inl e, w)

  infixl 10 ◌>>=◌ ◌>>◌
  abbrev pub ◌>>=◌ : Step W E A → (A → Step W E B) → Step W E B
  ◌>>=◌ m f w = let (r, w') = m w in continue r f w'

  abbrev pub ◌>>◌ : Step W E A → Step W E B → Step W E B
  m >> n = m >>= λ _. n

  continue_ok :
      (x : (E ⊎ A) × W) (f : A → Step W E B) {b : B} {w : W}
      → continue x.0 f x.1 ≡ (inr b, w)
      → (a : A) × (v : W) × (x ≡ (inr a, v)) × (f a v ≡ (inr b, w))
  continue_ok (inr a, v) f h = (a, v, refl, h)
  continue_ok (inl e, v) f h = cc

  -- What a block that returned says of its first step.
  pub bind_ok :
      (m : Step W E A) (f : A → Step W E B) (v : W) {b : B} {w : W}
      → (m >>= f) v ≡ (inr b, w)
      → (a : A) × (u : W) × (m v ≡ (inr a, u)) × (f a u ≡ (inr b, w))
  bind_ok m f v h = continue_ok (m v) f h

  continue_err :
      (x : (E ⊎ A) × W) (f : A → Step W E B) {e : E} {w : W}
      → continue x.0 f x.1 ≡ (inl e, w)
      → (x ≡ (inl e, w)) ⊎ ((a : A) × (v : W) × (x ≡ (inr a, v)) × (f a v ≡ (inl e, w)))
  continue_err (inr a, v) f h = inr (a, v, refl, h)
  continue_err (inl e, v) f h = inl (cc)

  -- What a block that failed says of it.
  pub bind_err :
      (m : Step W E A) (f : A → Step W E B) (v : W) {e : E} {w : W}
      → (m >>= f) v ≡ (inl e, w)
      → (m v ≡ (inl e, w)) ⊎ ((a : A) × (u : W) × (m v ≡ (inr a, u)) × (f a u ≡ (inl e, w)))
  bind_err m f v h = continue_err (m v) f h

mapped_ok :
    {E F A W : Type 0} (f : E → F) (x : (E ⊎ A) × W) {a : A} {w : W}
    → ◌≡◌ {A = (F ⊎ A) × W} (mapped f x.0, x.1) (inr a, w)
    → x ≡ (inr a, w)
mapped_ok f (inr b, v) h = cc
mapped_ok f (inl e, v) h = cc

pub map_err_ok :
    {E F A W : Type 0} (f : E → F) (m : Step W E A) (v : W) {a : A} {w : W}
    → map_err f m v ≡ (inr a, w)
    → m v ≡ (inr a, w)
map_err_ok f m v h = mapped_ok f (m v) h
