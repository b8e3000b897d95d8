-- ===== src/Transport/Framing/Flags.antt =====
-- `mod flags` of transport/src/framing.rs.
use smart_core_assistant_v.Prelude.{ℕ}

abbrev pub stream_item : ℕ
stream_item = 1

abbrev pub stream_end : ℕ
stream_end = 2

abbrev pub is_error : ℕ
is_error = 4

abbrev pub compressed : ℕ
compressed = 8

abbrev pub ping : ℕ
ping = 16

abbrev pub pong : ℕ
pong = 32
