-- ===== src/Daemon/Frame/Tests.antt =====
-- Frames on concrete payloads.
use bgx.Base.{
  ◌≡◌, refl, true, [], ◌∷◌, ◌++◌, Bytes, codes, arith, take, ◌==◌, ◌||◌, if◌then◌else◌, length,
  replicate, length-replicate,
}
use bgx.Daemon.Frame.RoundTrip.{
  append_to, frame_bytes, read_frame-write_frame, read_frame_too_large, encode_resize-decode_resize,
}
use bgx.Daemon.Frame.Truncated.{read_frame_truncated}
use bgx.Daemon.Frame.{
  frame_input, frame_output, eof, unexpected_eof, too_large, ok, err, write_frame, read_frame,
  encode_resize, decode_resize, put_uint32,
}

written : (write_frame append_to [] frame_output (codes "hi")).0 ≡ 1 ∷ 0 ∷ 0 ∷ 0 ∷ 2 ∷ codes "hi"
unfolding write_frame put_uint32
written = refl

read_frame-write_frame_example :
    read_frame ((write_frame append_to [] frame_input (codes "ls")).0 ++ codes "rest")
    ≡ ok ((frame_input, codes "ls"), codes "rest")
read_frame-write_frame_example =
    read_frame-write_frame frame_input (codes "ls") (codes "rest") (omega arith)

read_frame_truncated_example :
    read_frame (take 5 (frame_bytes frame_input (codes "ls")))
    ≡ err (if 5 == 0 || 5 == 5 then eof else unexpected_eof)
unfolding put_uint32
read_frame_truncated_example =
    read_frame_truncated frame_input (codes "ls") 5 (omega arith) (omega arith)

encode_resize-decode_resize_example :
    encode_resize
      (decode_resize (0 ∷ 24 ∷ 1 ∷ 4 ∷ [])).0.rows
      (decode_resize (0 ∷ 24 ∷ 1 ∷ 4 ∷ [])).0.cols
    ≡ 0 ∷ 24 ∷ 1 ∷ 4 ∷ []
unfolding decode_resize
encode_resize-decode_resize_example =
    encode_resize-decode_resize (0 ∷ 24 ∷ 1 ∷ 4 ∷ []) (omega arith) refl

-- 16 MB and a byte.
abbrev big : Bytes
big = replicate 16777217 0

read_frame_too_large_example :
    let (w, done) = write_frame append_to [] frame_input big in
    (done ≡ true) × (read_frame (w ++ []) ≡ err (too_large (length big)))
read_frame_too_large_example =
    let size : length big ≡ 16777217 = length-replicate 16777217 0 in
    read_frame_too_large frame_input big [] (rw size (omega arith)) (rw size (omega arith))
