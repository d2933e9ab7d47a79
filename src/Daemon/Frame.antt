-- ===== src/Daemon/Frame.antt =====
-- daemon/frame.go: tagged, length-prefixed frames. A reader is the list of the bytes that are left
-- to be read before the peer's end of stream; a writer is any state with a write that may fail.
pub mod RoundTrip
pub mod Truncated
mod Tests
use bgx.Base.{
  ℕ, ◌+◌, ◌*◌, ◌/◌, ◌%◌, ◌^◌, Bool, true, false, not, List, [], ◌∷◌, ◌++◌, Option, none, some,
  Bytes, ltb, leb, ◌==◌, if◌then◌else◌, length, take, drop,
}

-- `FrameTag`, a uint8.
abbrev pub FrameTag : Type 0
FrameTag = ℕ

abbrev pub frame_input : FrameTag
frame_input = 0

abbrev pub frame_output : FrameTag
frame_output = 1

abbrev pub frame_resize : FrameTag
frame_resize = 2

abbrev pub frame_detach : FrameTag
frame_detach = 3

abbrev pub frame_ended : FrameTag
frame_ended = 4

-- 16 << 20.
abbrev pub max_frame_len : ℕ
max_frame_len = 16777216

abbrev pub frame_header_len : ℕ
frame_header_len = 5

pub record ResizePayload : Type 0 where
  pub rows : ℕ
  pub cols : ℕ

-- `io.EOF`, `io.ErrUnexpectedEOF`, and the refusal of a length.
pub data ReadError : Type 0 where
  eof unexpected_eof : ReadError
  too_large : ℕ → ReadError

pub data Result (A : Type 0) : Type 0 where
  ok : A → Result A
  err : ReadError → Result A

infixl 5 ◌>>=◌
abbrev pub ◌>>=◌ : {A B : Type 0} → Result A → (A → Result B) → Result B
ok a >>= f = f a
err e >>= f = err e

-- `binary.BigEndian.PutUint32` and `Uint32`.
unfoldable pub put_uint32 : ℕ → Bytes
put_uint32 n = (n / 2 ^ 24 % 256) ∷ (n / 2 ^ 16 % 256) ∷ (n / 2 ^ 8 % 256) ∷ (n % 256) ∷ []

unfoldable pub uint32 : Bytes → ℕ
uint32 (a ∷ b ∷ c ∷ d ∷ _) = ((a * 256 + b) * 256 + c) * 256 + d
uint32 _ = 0

-- `binary.BigEndian.PutUint16` and `Uint16`.
unfoldable pub put_uint16 : ℕ → Bytes
put_uint16 n = (n / 256 % 256) ∷ (n % 256) ∷ []

unfoldable pub uint16 : Bytes → ℕ
uint16 (a ∷ b ∷ _) = a * 256 + b
uint16 _ = 0

-- `io.ReadFull`: what was read, and the reader behind it.
unfoldable pub read_full : Bytes → ℕ → Result (Bytes × Bytes)
read_full r n =
    if leb n (length r)
    then ok (take n r, drop n r)
    else err (if length r == 0 then eof else unexpected_eof)

abbrev pub header : FrameTag → Bytes → Bytes
header tag payload = tag ∷ put_uint32 (length payload % 2 ^ 32)

-- A write returns the writer and whether it succeeded; so does `WriteFrame`.
unfoldable pub write_frame : {W : Type 0} → (W → Bytes → W × Bool) → W → FrameTag → Bytes → W × Bool
write_frame write w tag payload =
    let (w1, done) = write w (header tag payload) in
    if not done
    then (w1, false)
    else if ltb 0 (length payload)
    then write w1 payload
    else (w1, true)

abbrev pub head_byte : Bytes → ℕ
head_byte [] = 0
head_byte (b ∷ _) = b

-- `ReadFrame` behind the header.
unfoldable pub read_payload : FrameTag → ℕ → Bytes → Result ((FrameTag × Bytes) × Bytes)
read_payload tag n r =
    if ltb max_frame_len n
    then err (too_large n)
    else if n == 0
    then ok ((tag, []), r)
    else do (buf, r') ← read_full r n; ok ((tag, buf), r')

unfoldable pub read_frame : Bytes → Result ((FrameTag × Bytes) × Bytes)
read_frame r = do
  (hdr, r') ← read_full r frame_header_len
  read_payload (head_byte hdr) (uint32 (drop 1 hdr)) r'

unfoldable pub encode_resize : ℕ → ℕ → Bytes
encode_resize rows cols = put_uint16 rows ++ put_uint16 cols

unfoldable pub decode_resize : Bytes → ResizePayload × Bool
decode_resize b =
    if not (length b == 4)
    then (record { rows = 0; cols = 0 }, false)
    else (record { rows = uint16 b; cols = uint16 (drop 2 b) }, true)
