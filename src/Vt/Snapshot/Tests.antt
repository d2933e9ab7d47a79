-- ===== src/Vt/Snapshot/Tests.antt =====
-- Snapshots over an emulator that counts what it is written, and shows two letters.
use bgx.Base.{ℕ, ◌+◌, ◌≡◌, refl, true, false, [], ◌∷◌, ◌++◌, some, none, Bytes, codes, length}
use bgx.Vtscan.{initial, step}
use bgx.Vt.{
  Engine, Vt, new_vt, write, write_loop, write_round, flush, note_byte, track_sequence,
  parse_mode_param, set_mode,
}
use bgx.Vt.Snapshot.{esc, snapshot, dump_primary_screen, mode_sequences}
use bgx.Vt.Snapshot.Tracking.{new_vt-IsTracking, write-IsTracking}
use bgx.Vt.Snapshot.Quiet.{fixed-IsQuiet}
use bgx.Vt.Snapshot.Replay.{Renders, write-snapshot}

abbrev counter : Engine
counter = record {
  Term = ℕ;
  vt_write = λ t p. t + length p;
  cursor_x = λ t. some 2;
  cursor_y = λ t. some 3;
  set_size = λ t cols rows. some t;
  format = λ t. some (codes "ab");
}

counter_renders : Renders counter
unfolding note_byte track_sequence step
counter_renders = record {
  rendering = λ t. codes "ab";
  renders = λ t. refl;
  quiet = λ t. fixed-IsQuiet (codes "ab") (λ v. (refl, refl, refl));
}

-- On the alternate screen, with bracketed paste.
abbrev session : Vt counter
session = write (new_vt counter 0) (codes "x" ++ esc (codes "[?1049h") ++ esc (codes "[?2004h"))

abbrev client : Vt counter
client = new_vt counter 0

session_snapshot :
    (snapshot session).1
    ≡ some (
        esc (codes "[?1049l")
        ++ esc (codes "[2J")
        ++ esc (codes "[H")
        ++ esc (codes "[0mab")
        ++ esc (codes "[4;3H")
        ++ esc (codes "[?1049h")
        ++ esc (codes "[2J")
        ++ esc (codes "[H")
        ++ esc (codes "[0mab")
        ++ esc (codes "[?1l")
        ++ esc (codes "[?25h")
        ++ esc (codes "[?1000l")
        ++ esc (codes "[?1002l")
        ++ esc (codes "[?1003l")
        ++ esc (codes "[?1004l")
        ++ esc (codes "[?1006l")
        ++ esc (codes "[?2004h"))
unfolding snapshot mode_sequences write write_loop write_round flush note_byte track_sequence
    parse_mode_param set_mode step bgx.Base.digits_from
session_snapshot = refl

session_primary : (dump_primary_screen session).1 ≡ some (codes "ab" ++ esc (codes "[4;3H"))
unfolding dump_primary_screen write write_loop write_round flush note_byte track_sequence
    parse_mode_param set_mode step bgx.Base.digits_from
session_primary = refl

write-snapshot_example :
    (p : Bytes) × ((snapshot session).1 ≡ some p)
    × (let w = write client p in
        (w.alt ≡ session.alt) × (w.modes ≡ session.modes) × (w.scan ≡ initial))
write-snapshot_example =
    write-snapshot {e = counter} counter_renders session client
      (write-IsTracking _ _ (new_vt-IsTracking counter 0)) (new_vt-IsTracking counter 0) refl
