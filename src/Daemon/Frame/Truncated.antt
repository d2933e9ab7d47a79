-- ===== src/Daemon/Frame/Truncated.antt =====
-- What `ReadFrame` answers when the stream ends within a frame.
use bgx.Base.{
  ℕ, ◌+◌, ◌-◌, ◌≤◌, ◌<◌, ◌≡◌, ap, ◌∙◌, ◌||◌, ◌++◌, Bytes, arith, ltb, ◌==◌, if◌then◌else◌, length,
  take, length-append, length-take, take-append_add, Bool-cases, inl, inr, tests,
}
use bgx.Daemon.Frame.{
  FrameTag, max_frame_len, eof, unexpected_eof, err, header, read_payload, read_frame, read_full,
}
use bgx.Daemon.Frame.RoundTrip.{frame_bytes, length-header, read_header, uint32-length}

read_full_short :
    (r : Bytes) (n : ℕ)
    → length r < n
    → read_full r n ≡ err (if length r == 0 then eof else unexpected_eof)
unfolding read_full
read_full_short r n h = ground arith

read_payload_short :
    (tag : FrameTag) (payload : Bytes) (m : ℕ)
    → length payload ≤ max_frame_len
    → m < length payload
    → read_payload tag (length payload) (take m payload)
      ≡ err (if m == 0 then eof else unexpected_eof)
unfolding read_payload
read_payload_short tag payload m h lt =
    ground (arith, read_full_short (take m payload) (length payload), length-take m payload)

-- The stream ends in the header, or behind it.
in_header :
    (tag : FrameTag) (payload : Bytes) (n : ℕ)
    → n < 5
    → read_frame (take n (frame_bytes tag payload))
      ≡ err (if n == 0 || n == 5 then eof else unexpected_eof)
unfolding read_frame
in_header tag payload n h = ground (
  arith,
  read_full_short (take n (frame_bytes tag payload)) 5,
  length-take n (frame_bytes tag payload),
  length-append (header tag payload) payload,
  length-header tag payload,
)

take_behind :
    (tag : FrameTag) (payload : Bytes) (m : ℕ)
    → take (5 + m) (frame_bytes tag payload) ≡ header tag payload ++ take m payload
take_behind tag payload m =
    rw (length-header tag payload) at (take-append_add (header tag payload) payload m)

behind_header :
    (tag : FrameTag) (payload : Bytes) (m : ℕ)
    → length payload ≤ max_frame_len
    → m < length payload
    → read_frame (take (5 + m) (frame_bytes tag payload))
      ≡ err (if m == 0 then eof else unexpected_eof)
unfolding read_frame
behind_header tag payload m h lt = rw (take_behind tag payload m) (
    ground (
      arith,
      read_header tag payload (take m payload),
      uint32-length payload h,
      read_payload_short tag payload m h lt,
    ))

-- A frame whose payload is at most 16 MB long is never taken for a frame when it is cut short.
-- `ReadFrame` reports the end of the stream as the clean `io.EOF` if it lies before the frame or just between its header and its payload, and as
-- `io.ErrUnexpectedEOF` at every other place.
pub read_frame_truncated :
    (tag : FrameTag) (payload : Bytes) (n : ℕ)
    → length payload ≤ max_frame_len
    → n < length (frame_bytes tag payload)
    → read_frame (take n (frame_bytes tag payload))
      ≡ err (if n == 0 || n == 5 then eof else unexpected_eof)
read_frame_truncated tag payload n h lt = elim (Bool-cases (ltb n 5)) [
  | inl early ↦ in_header tag payload n (omega tests)
  | inr late ↦
      let e : n ≡ 5 + (n - 5) = ground arith in
      let in_payload : n - 5 < length payload =
        ground (arith, length-append (header tag payload) payload, length-header tag payload) in
      let found = behind_header tag payload (n - 5) h in_payload in
      rw (← e) at found ∙ ap err (ground arith)
]
