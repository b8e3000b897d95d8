-- ===== src/Transport/Framing/RoundTrip.antt =====
-- Reading back what `write_frame` wrote.
use mathlib.Core.List.{append_assoc}
use native.Mathlib.Decide.{dec_lt}
use smart_core_assistant_v.Prelude.{
  ℕ, ◌+◌, ◌-◌, ◌%◌, ◌^◌, ◌≤◌, ◌<◌, ◌≡◌, refl, sym, ap, subst, ◌∙◌, Option, none, some, List, [],
  ◌∷◌, ◌++◌, length, take, drop, length-append, length-take, take_of_le, drop_of_le,
  take-append-drop, take-append_length, All, arith,
}
use smart_core_assistant_v.Transport.Framing.{
  Frame, Reads, ByteIo, ByteIoLaws, ◌>>=◌, write_frame, read_frame, read_frames, write_frames,
}

-- The fields fit their places in the header, but for the length.
abbrev pub FitsHeader : Frame → Type 0
FitsHeader f = (f.flags < 256) × (f.corr_id < 2 ^ 128)

abbrev pub Fits : Frame → Type 0
Fits f = FitsHeader f × (length f.body < 2 ^ 32)

abbrev pub sent : Frame → ℕ
sent f = length f.body % 2 ^ 32

-- A read from a stream that was cut gets nothing, or goes on with what is left of the rest.
Reads-cut :
    {w bound : ℕ} {put : ℕ → List ℕ} {get : List ℕ → Option (ℕ × List ℕ)} {B : Type 0}
    → Reads w bound put get
    → (m n : ℕ) (rest : List ℕ) (k : ℕ × List ℕ → Option B) → m < bound
    → ((j : ℕ) → n ≡ w + j → k (m, take j rest) ≡ none)
    → (get (take n (put m ++ rest)) >>= k) ≡ none
Reads-cut {w} {put} {get} reads m n rest k fits later = elim (dec_lt n w) [
  | yes p ↦ rw (reads.short (take n (put m ++ rest)) (omega (arith, length-take n (put m ++ rest))))
  | no p ↦
      let e : n ≡ w + (n - w) = omega arith in
      rw (take-append_length (put m) rest n (n - w) (omega (arith, reads.width m)))
        (rw (reads.back m (take (n - w) rest) fits) (later (n - w) e))
]

module _ (io : ByteIo) (laws : ByteIoLaws io) where
  read_exact-prefix :
      (n : ℕ) (xs rest : List ℕ)
      → n ≤ length xs
      → io.read_exact n (xs ++ rest) ≡ some (take n xs, drop n xs ++ rest)
  read_exact-prefix n xs rest h =
      let len : length (take n xs) ≡ n = omega (arith, length-take n xs) in
      let whole : xs ++ rest ≡ take n xs ++ (drop n xs ++ rest) =
        ap (λ ys. ys ++ rest) (sym (take-append-drop n xs))
        ∙ append_assoc (take n xs) (drop n xs) rest in
      subst (λ bs. io.read_exact n bs ≡ some (take n xs, drop n xs ++ rest)) (sym whole)
        (subst
          (λ k.
            io.read_exact k (take n xs ++ (drop n xs ++ rest))
            ≡ some (take n xs, drop n xs ++ rest))
          len (laws.exact (take n xs) (drop n xs ++ rest)))

  -- A reader gets the flags, the identifier and as many bytes of the body as the 32-bit length
  -- says, and goes on behind these: a body of 2^32 bytes or more is cut, and its rest is read as
  -- the next frame.
  pub read_frame-write_frame :
      (f : Frame) (rest : List ℕ)
      → FitsHeader f
      → read_frame io (write_frame io f ++ rest)
        ≡ some (record f { body = take (sent f) f.body }, drop (sent f) f.body ++ rest)
  unfolding read_frame write_frame
  read_frame-write_frame f rest (flags, corr) = simp (
    append_assoc,
    laws.u32.back (sent f) (io.put_u8 f.flags ++ (io.put_u128 f.corr_id ++ (f.body ++ rest)))
        (omega arith),
    laws.u8.back f.flags (io.put_u128 f.corr_id ++ (f.body ++ rest)) flags,
    laws.u128.back f.corr_id (f.body ++ rest) corr,
    read_exact-prefix (sent f) f.body rest (omega arith),
  )

  -- Below 2^32 bytes the frame itself comes back, and the reader stands behind it.
  pub read_frame-write_frame-Fits :
      (f : Frame) (rest : List ℕ)
      → Fits f
      → read_frame io (write_frame io f ++ rest) ≡ some (f, rest)
  read_frame-write_frame-Fits f rest (header, short) =
      let n : length f.body ≤ sent f = omega arith in
      read_frame-write_frame f rest header ∙ λ i.
      some
        (record f { body = take_of_le (sent f) f.body n i }, drop_of_le (sent f) f.body n i ++ rest)

  -- A read loop gets the frames that a write loop sent on the connection, in their order.
  pub read_frames-write_frames :
      (fs : List Frame) → All Fits fs → read_frames (length fs) io (write_frames io fs) ≡ fs
  unfolding read_frames write_frames
  read_frames-write_frames [] h = refl
  read_frames-write_frames (f ∷ fs) (fits, h) =
      rw (read_frame-write_frame-Fits f (write_frames io fs) fits, read_frames)
        (ap (λ gs. f ∷ gs) (read_frames-write_frames fs h))

  -- The bytes of a frame that the stream cut off before its end give no frame.
  pub read_frame_cut :
      (f : Frame) (n : ℕ)
      → Fits f
      → n < length (write_frame io f)
      → read_frame io (take n (write_frame io f)) ≡ none
  unfolding read_frame write_frame
  read_frame_cut f n ((flags, corr), short) h =
      let len : n < 4 + (1 + (16 + length f.body)) = omega (
        arith,
        h,
        length-append (io.put_u32 (sent f))
            (io.put_u8 f.flags ++ (io.put_u128 f.corr_id ++ f.body)),
        length-append (io.put_u8 f.flags) (io.put_u128 f.corr_id ++ f.body),
        length-append (io.put_u128 f.corr_id) f.body,
        laws.u32.width (sent f),
        laws.u8.width f.flags,
        laws.u128.width f.corr_id,
      ) in
      Reads-cut laws.u32 (sent f) n _ _ (omega arith) λ n1 e1.
        Reads-cut laws.u8 f.flags n1 _ _ flags λ n2 e2.
          Reads-cut laws.u128 f.corr_id n2 _ _ corr λ n3 e3.
            rw (laws.exact_short (sent f) (take n3 f.body) (omega (arith, length-take n3 f.body)))
