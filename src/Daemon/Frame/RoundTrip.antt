-- ===== src/Daemon/Frame/RoundTrip.antt =====
-- What `WriteFrame` writes, `ReadFrame` reads, and the other way round.
use bgx.Base.{
  ℕ, ◌%◌, ◌^◌, ◌≤◌, ◌<◌, ◌≡◌, refl, ◌∙◌, Bool, true, [], ◌∷◌, ◌++◌, Bytes, arith, length, All,
  append-nil, length-append, take-append, drop-append, append_assoc,
}
use bgx.Daemon.Frame.{
  FrameTag, max_frame_len, too_large, ok, err, put_uint32, uint32, put_uint16, uint16, header,
  write_frame, read_payload, read_frame, read_full, encode_resize, decode_resize,
}

-- A writer that keeps what it is given, such as a `bytes.Buffer`.
abbrev pub append_to : Bytes → Bytes → Bytes × Bool
append_to w p = (w ++ p, true)

abbrev pub IsByte : ℕ → Type 0
IsByte b = b < 256

-- The bytes of one frame.
abbrev pub frame_bytes : FrameTag → Bytes → Bytes
frame_bytes tag payload = header tag payload ++ payload

-- Over a writer that takes everything, `WriteFrame` appends the header and the payload.
pub write_frame-append_to :
    (w : Bytes) (tag : FrameTag) (payload : Bytes)
    → write_frame append_to w tag payload ≡ (w ++ frame_bytes tag payload, true)
unfolding write_frame
write_frame-append_to w tag [] = rw append-nil
write_frame-append_to w tag (b ∷ p) = ground (arith, append_assoc w (header tag (b ∷ p)) (b ∷ p))

pub uint32-put_uint32 : (n : ℕ) → n < 2 ^ 32 → uint32 (put_uint32 n) ≡ n
unfolding uint32 put_uint32
uint32-put_uint32 n h = omega arith

-- Reading just what is there.
pub read_full-append : (p rest : Bytes) → read_full (p ++ rest) (length p) ≡ ok (p, rest)
unfolding read_full
read_full-append p rest =
    ground (arith, length-append p rest, take-append p rest, drop-append p rest)

pub length-header : (tag : FrameTag) (payload : Bytes) → length (header tag payload) ≡ 5
unfolding put_uint32
length-header tag payload = refl

read_payload-append :
    (tag : FrameTag) (payload rest : Bytes)
    → length payload ≤ max_frame_len
    → read_payload tag (length payload) (payload ++ rest) ≡ ok ((tag, payload), rest)
unfolding read_payload
read_payload-append tag [] rest h = refl
read_payload-append tag (b ∷ p) rest h = ground (arith, read_full-append (b ∷ p) rest)

pub uint32-length :
    (payload : Bytes)
    → length payload ≤ max_frame_len
    → uint32 (put_uint32 (length payload % 2 ^ 32)) ≡ length payload
uint32-length payload h = uint32-put_uint32 (length payload % 2 ^ 32) (omega arith) ∙ omega arith

pub read_header :
    (tag : FrameTag) (payload rest : Bytes)
    → read_full (header tag payload ++ rest) 5 ≡ ok (header tag payload, rest)
read_header tag payload rest =
    rw (← length-header tag payload) (read_full-append (header tag payload) rest)

pub read_frame-frame_bytes :
    (tag : FrameTag) (payload rest : Bytes)
    → length payload ≤ max_frame_len
    → read_frame (frame_bytes tag payload ++ rest) ≡ ok ((tag, payload), rest)
unfolding read_frame
read_frame-frame_bytes tag payload rest h = ground (
  arith,
  append_assoc (put_uint32 (length payload % 2 ^ 32)) payload rest,
  read_header tag payload (payload ++ rest),
  uint32-length payload h,
  read_payload-append tag payload rest h,
)

-- `ReadFrame` gives back the tag and the payload that `WriteFrame` wrote, and leaves what follows,
-- if the payload is at most 16 MB long.
pub read_frame-write_frame :
    (tag : FrameTag) (payload rest : Bytes)
    → length payload ≤ max_frame_len
    → read_frame ((write_frame append_to [] tag payload).0 ++ rest) ≡ ok ((tag, payload), rest)
read_frame-write_frame tag payload rest h =
    rw write_frame-append_to (read_frame-frame_bytes tag payload rest h)

-- The writer checks no limit: a longer payload (below 4 GB) is written whole, with success, and
-- `ReadFrame` refuses it.
pub read_frame_too_large :
    (tag : FrameTag) (payload rest : Bytes)
    → max_frame_len < length payload
    → length payload < 2 ^ 32
    → let (w, done) = write_frame append_to [] tag payload in
      (done ≡ true) × (read_frame (w ++ rest) ≡ err (too_large (length payload)))
read_frame_too_large tag payload rest h l = rw write_frame-append_to (
  refl,
  unfold read_frame read_payload in
      ground (
        arith,
        append_assoc (put_uint32 (length payload % 2 ^ 32)) payload rest,
        read_header tag payload (payload ++ rest),
        uint32-put_uint32 (length payload % 2 ^ 32),
      ),
)

-- `EncodeResize` and `DecodeResize` are inverse on uint16 sizes.
pub decode_resize-encode_resize :
    (rows cols : ℕ)
    → rows < 2 ^ 16
    → cols < 2 ^ 16
    → decode_resize (encode_resize rows cols) ≡ (record { rows = rows; cols = cols }, true)
unfolding decode_resize encode_resize put_uint16 uint16
decode_resize-encode_resize rows cols hr hc = ground arith

-- A payload of bytes decodes exactly when it is the encoding of the size that it decodes to.
pub encode_resize-decode_resize :
    (b : Bytes)
    → All IsByte b
    → (decode_resize b).1 ≡ true
    → encode_resize (decode_resize b).0.rows (decode_resize b).0.cols ≡ b
unfolding decode_resize encode_resize put_uint16 uint16
encode_resize-decode_resize (r1 ∷ r0 ∷ c1 ∷ c0 ∷ []) h e = ground arith
encode_resize-decode_resize _ h e = ground arith
