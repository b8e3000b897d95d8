-- ===== src/Transport/Error.antt =====
-- transport/src/error.rs.
use smart_core_assistant_v.Prelude.{Text}

-- The argument of `io` is the printed text of the `std::io::Error`.
pub data TransportError : Type 0 where
  closed timeout : TransportError
  io codec internal_channel bus : Text → TransportError

pub data Result {ℓ} (A : Type ℓ) : Type ℓ where
  ok : A → Result A
  err : TransportError → Result A

infixl 5 ◌>>=◌
abbrev pub ◌>>=◌ {ℓ κ} : {A : Type ℓ} {B : Type κ} → Result A → (A → Result B) → Result B
ok a >>= f = f a
err e >>= f = err e
