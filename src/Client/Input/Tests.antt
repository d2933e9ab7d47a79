-- ===== src/Client/Input/Tests.antt =====
-- The input loop over a connection that keeps the bytes of its Input frames.
use bgx.Base.{◌≡◌, refl, [], ◌∷◌, ◌++◌, some, Bytes, codes, ◌==◌, if◌then◌else◌}
use bgx.Daemon.Frame.{FrameTag, frame_input}
use bgx.Client.CtrlKey.{feed, is_ctrl_backslash, is_key_at, ctrl_backslash_suffix_len, last_escape}
use bgx.Client.Input.{
  read, no_error, end_of_file, Outcome, Wire, Input, new_input, handle, on_read, send_input,
}
use bgx.Client.Input.Typed.{Log, start, was_read, Kept, Typed-Kept}

abbrev byte_wire : Wire
byte_wire = record {
  State = Bytes;
  send = λ s tag p. some (s ++ (if tag == frame_input then p else []));
}

send-appends :
    (s : Bytes) (tag : FrameTag) (p : Bytes) {s' : Bytes}
    → byte_wire.send s tag p ≡ some s'
    → s' ≡ s ++ (if tag == frame_input then p else [])
send-appends s tag p e = cc

abbrev byte_log : Log byte_wire
byte_log = record { sent = λ s. s; logs = send-appends }

abbrev typed_ls : Input byte_wire
typed_ls = handle (new_input []) (read (codes "ls") no_error)

ls_runs : typed_ls.outcome ≡ Outcome.running
unfolding handle on_read send_input feed is_ctrl_backslash is_key_at ctrl_backslash_suffix_len
    last_escape
ls_runs = refl

-- "ls", then the end of the input behind an ESC.
Typed-Kept_example :
    Kept byte_wire byte_log
      (codes "ls" ++ 0x1b ∷ [])
      (handle typed_ls (read (0x1b ∷ []) end_of_file))
Typed-Kept_example =
    Typed-Kept byte_wire byte_log (
      was_read (0x1b ∷ []) end_of_file (was_read (codes "ls") no_error (start [] refl) refl)
        ls_runs)
