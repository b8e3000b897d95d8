-- ===== src/Transport/Tests/Frames.antt =====
-- The theorems on frames and on the codec at concrete bytes.
use smart_core_assistant_v.Prelude.{◌≡◌, [], ◌∷◌, ◌<◌, length, arith}
use smart_core_assistant_v.Transport.Framing.{Frame, write_frame, read_frames, write_frames}
use smart_core_assistant_v.Transport.Framing.RoundTrip.{Fits, read_frames-write_frames}
use smart_core_assistant_v.Transport.Framing.BigEndian.{big_endian, big_endian_laws, put_be}
use smart_core_assistant_v.Transport.Codec.Interface.{CodecLaws}
use smart_core_assistant_v.Transport.Codec.Flatbuffers.{
  Cabe, flatbuffers_codec, flatbuffers_codec_laws,
}
use smart_core_assistant_v.Transport.Tests.Memory.{tables, tables_laws}

abbrev pub hello : Frame
hello = record { flags = 4; corr_id = 77; body = 104 ∷ 105 ∷ [] }

abbrev bye : Frame
bye = record { flags = 0; corr_id = 78; body = [] }

hello-Fits : Fits hello
hello-Fits = ((omega arith, omega arith), omega arith)

bye-Fits : Fits bye
bye-Fits = ((omega arith, omega arith), omega arith)

short_cut : 20 < length (write_frame big_endian hello)
unfolding write_frame put_be
short_cut = omega arith

read_frames-write_frames_example :
    read_frames 2 big_endian (write_frames big_endian (hello ∷ bye ∷ [])) ≡ hello ∷ bye ∷ []
read_frames-write_frames_example =
    read_frames-write_frames big_endian big_endian_laws (hello ∷ bye ∷ [])
      (hello-Fits, (bye-Fits, tt))

flatbuffers_codec_laws_example : CodecLaws (flatbuffers_codec tables) (Cabe tables)
flatbuffers_codec_laws_example = flatbuffers_codec_laws tables tables_laws
