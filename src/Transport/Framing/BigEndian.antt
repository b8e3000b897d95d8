-- ===== src/Transport/Framing/BigEndian.antt =====
-- The byte order that tokio documents for `write_u32` and its like: the highest byte first. It meets
-- the laws that the frames rely on.
use native.Mathlib.Nat.{pow-suc, div-add-mod, mod-lt, mul_comm}
use smart_core_assistant_v.Prelude.{
  ℕ, zero, suc, ◌+◌, ◌*◌, ◌/◌, ◌%◌, ◌^◌, ◌<◌, ◌≡◌, refl, ap, Option, none, some, List, [], ◌∷◌,
  ◌++◌, length, arith,
}
use smart_core_assistant_v.Transport.Framing.{ByteIo, ByteIoLaws, Reads, ◌>>=◌}

-- `w` bytes of `n`.
unfoldable pub put_be : ℕ → ℕ → List ℕ
put_be zero n = []
put_be (suc w) n = n / 256 ^ w ∷ put_be w (n % 256 ^ w)

unfoldable pub get_be : ℕ → List ℕ → Option (ℕ × List ℕ)
get_be zero bytes = some (0, bytes)
get_be (suc w) [] = none
get_be (suc w) (b ∷ bytes) = do (n, rest) ← get_be w bytes; some (b * 256 ^ w + n, rest)

unfoldable pub exact_be : ℕ → List ℕ → Option (List ℕ × List ℕ)
exact_be zero bytes = some ([], bytes)
exact_be (suc n) [] = none
exact_be (suc n) (b ∷ bytes) = do (xs, rest) ← exact_be n bytes; some (b ∷ xs, rest)

pow_pos : (w : ℕ) → 0 < 256 ^ w
pow_pos zero = omega arith
pow_pos (suc w) = rw pow-suc (omega (arith, pow_pos w))

length-put_be : (w n : ℕ) → length (put_be w n) ≡ w
unfolding put_be
length-put_be zero n = refl
length-put_be (suc w) n = ap suc (length-put_be w (n % 256 ^ w))

get_be-put_be :
    (w n : ℕ) (rest : List ℕ) → n < 256 ^ w → get_be w (put_be w n ++ rest) ≡ some (n, rest)
unfolding get_be put_be
get_be-put_be zero n rest h = ap (λ (k : ℕ). some (k, rest)) (omega arith)
get_be-put_be (suc w) n rest h = rw (get_be-put_be w (n % 256 ^ w) rest (mod-lt n (pow_pos w))) (
    ap (λ (k : ℕ). some (k, rest))
      (omega (arith, div-add-mod n (256 ^ w), mul_comm (256 ^ w) (n / 256 ^ w))))

get_be_short : (w : ℕ) (bytes : List ℕ) → length bytes < w → get_be w bytes ≡ none
unfolding get_be
get_be_short zero bytes h = absurd (omega arith)
get_be_short (suc w) [] h = refl
get_be_short (suc w) (b ∷ bytes) h = rw (get_be_short w bytes (omega arith))

exact_be-append : (xs rest : List ℕ) → exact_be (length xs) (xs ++ rest) ≡ some (xs, rest)
unfolding exact_be
exact_be-append [] rest = refl
exact_be-append (x ∷ xs) rest = rw (exact_be-append xs rest)

exact_be_short : (n : ℕ) (bytes : List ℕ) → length bytes < n → exact_be n bytes ≡ none
unfolding exact_be
exact_be_short zero bytes h = absurd (omega arith)
exact_be_short (suc n) [] h = refl
exact_be_short (suc n) (b ∷ bytes) h = rw (exact_be_short n bytes (omega arith))

abbrev pub big_endian : ByteIo
big_endian = record {
  put_u32 = put_be 4;
  put_u8 = put_be 1;
  put_u128 = put_be 16;
  get_u32 = get_be 4;
  get_u8 = get_be 1;
  get_u128 = get_be 16;
  read_exact = exact_be;
}

Reads-be : (w bound : ℕ) → bound ≡ 256 ^ w → Reads w bound (put_be w) (get_be w)
Reads-be w bound e = record {
  width = length-put_be w;
  back = λ n rest h. get_be-put_be w n rest (rw (← e) h);
  short = get_be_short w;
}

pub big_endian_laws : ByteIoLaws big_endian
big_endian_laws = record {
  u32 = Reads-be 4 (2 ^ 32) refl;
  u8 = Reads-be 1 256 refl;
  u128 = Reads-be 16 (2 ^ 128) refl;
  exact = exact_be-append;
  exact_short = exact_be_short;
}
