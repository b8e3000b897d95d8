-- ===== src/Transport/Framing.antt =====
-- transport/src/framing.rs: frames on a byte stream.
pub mod Flags
pub mod RoundTrip
pub mod BigEndian
use smart_core_assistant_v.Prelude.{
  ℕ, zero, suc, ◌%◌, ◌^◌, ◌<◌, ◌≡◌, Option, none, some, List, [], ◌∷◌, ◌++◌, length,
}

pub record Frame : Type 0 where
  pub flags : ℕ
  pub corr_id : ℕ
  pub body : List ℕ

-- What the code uses of tokio's `AsyncWriteExt` and `AsyncReadExt`: the bytes that `write_u32` and
-- its like append, and what the reads take from the front of the bytes that are left before the
-- end of the stream; `none` is the error `UnexpectedEof`.
pub record ByteIo : Type 0 where
  pub put_u32 : ℕ → List ℕ
  pub put_u8 : ℕ → List ℕ
  pub put_u128 : ℕ → List ℕ
  pub get_u32 : List ℕ → Option (ℕ × List ℕ)
  pub get_u8 : List ℕ → Option (ℕ × List ℕ)
  pub get_u128 : List ℕ → Option (ℕ × List ℕ)
  pub read_exact : ℕ → List ℕ → Option (List ℕ × List ℕ)

-- `put` writes `w` bytes, from which `get` reads the number back; fewer bytes are not enough.
pub record Reads (w bound : ℕ) (put : ℕ → List ℕ) (get : List ℕ → Option (ℕ × List ℕ))
    : Type 0 where
  pub width : (n : ℕ) → length (put n) ≡ w
  pub back : (n : ℕ) (rest : List ℕ) → n < bound → get (put n ++ rest) ≡ some (n, rest)
  pub short : (bytes : List ℕ) → length bytes < w → get bytes ≡ none

pub record ByteIoLaws (io : ByteIo) : Type 0 where
  pub u32 : Reads 4 (2 ^ 32) io.put_u32 io.get_u32
  pub u8 : Reads 1 256 io.put_u8 io.get_u8
  pub u128 : Reads 16 (2 ^ 128) io.put_u128 io.get_u128
  pub exact : (xs rest : List ℕ) → io.read_exact (length xs) (xs ++ rest) ≡ some (xs, rest)
  pub exact_short : (n : ℕ) (bytes : List ℕ) → length bytes < n → io.read_exact n bytes ≡ none

infixl 5 ◌>>=◌
abbrev pub ◌>>=◌ {ℓ κ} : {A : Type ℓ} {B : Type κ} → Option A → (A → Option B) → Option B
none >>= k = none
some a >>= k = k a

-- `len as usize as u32` keeps the low 32 bits.
unfoldable pub write_frame : ByteIo → Frame → List ℕ
write_frame io f =
    io.put_u32 (length f.body % 2 ^ 32) ++ (io.put_u8 f.flags ++ (io.put_u128 f.corr_id ++ f.body))

unfoldable pub read_frame : ByteIo → List ℕ → Option (Frame × List ℕ)
read_frame io bytes = do
  (len, r1) ← io.get_u32 bytes
  (flags, r2) ← io.get_u8 r1
  (corr_id, r3) ← io.get_u128 r2
  (body, r4) ← io.read_exact len r3
  some (record { flags = flags; corr_id = corr_id; body = body }, r4)

-- The frames that a read loop takes before the end of the stream, `fuel` at most.
unfoldable pub read_frames : ℕ → ByteIo → List ℕ → List Frame
read_frames zero io bytes = []
read_frames (suc fuel) io bytes = elim (read_frame io bytes) [
  | none ↦ []
  | some (f, rest) ↦ f ∷ read_frames fuel io rest
]

-- What a write loop sends for the frames of its channel.
unfoldable pub write_frames : ByteIo → List Frame → List ℕ
write_frames io [] = []
write_frames io (f ∷ fs) = write_frame io f ++ write_frames io fs
