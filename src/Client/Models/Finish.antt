-- ===== src/Client/Models/Finish.antt =====
-- attachmodels.go: the end of an attachment, with the positions of client_attach.go.
use bgx.Base.{
  ℕ, ◌+◌, ◌%◌, ◌^◌, Bool, true, false, not, ◌||◌, [], ◌∷◌, ◌++◌, Option, none, some, Bytes, codes,
  decimal, ltb, ◌==◌, if◌then◌else◌,
}
use bgx.Errors.{Err, join, errorf}
use bgx.Vt.{Engine}
use bgx.Vt.Snapshot.{esc, dump_screen, dump_primary_screen}
use bgx.Client.View.{Console, emulator_error}
use bgx.Client.Models.{
  Presentation, pending, isolated, native, Models, native_mode_reset, write_out, close_view,
}
use bgx.Client.Models.Present.{crlf, scroll_away}

-- `attachOutcome`.
pub data Ending : Type 0 where
  aborted detached session_ended disconnected : Ending

abbrev pub message : Ending → Bytes
message aborted = []
message detached = codes "Detached from session"
message session_ended = codes "Session ended"
message disconnected = codes "Disconnected from session"

abbrev pub is_nil : Bytes → Bool
is_nil [] = true
is_nil _ = false

-- `attachSnapshot`.
pub record FinalScreen : Type 0 where
  pub contents : Bytes
  pub cols : ℕ
  pub rows : ℕ
  pub physical_rows : ℕ
  pub written_rows : ℕ

abbrev pub no_screen : FinalScreen
no_screen = record { contents = []; cols = 0; rows = 0; physical_rows = 0; written_rows = 0 }

abbrev pub leave_alternate : Bytes
leave_alternate = esc (codes "[?1049l")

abbrev pub native_cleanup : Bytes
native_cleanup =
    native_mode_reset
    ++ esc (codes "[?25h")
    ++ esc (codes "[0m")
    ++ esc (codes "7")
    ++ esc (codes "[r")
    ++ esc (codes "8")

unfoldable pub final_attach_screen_prefix : FinalScreen → Bytes
final_attach_screen_prefix s =
    leave_alternate
    ++ (esc (codes "[r")
        ++ (scroll_away s.physical_rows ++ (esc (codes "[H") ++ esc (codes "[0m"))))

unfoldable pub final_attach_outcome_position : FinalScreen → Bytes
final_attach_outcome_position s =
    if s.cols == 0 || s.rows == 0 || s.physical_rows == 0
    then crlf
    else if ltb s.written_rows s.physical_rows
    then esc (codes "[")
      ++ decimal ((s.written_rows + 1) % 2 ^ 16)
      ++ codes ";1H"
      ++ esc (codes "[2K")
    else esc (codes "[") ++ decimal s.physical_rows ++ codes ";1H" ++ crlf

abbrev pub final_attach_outcome_prefix : FinalScreen → Bytes
final_attach_outcome_prefix s =
    esc (codes "[?25h") ++ esc (codes "[0m") ++ final_attach_outcome_position s

-- `if err != nil { retErr = errors.Join(retErr, err) }`.
abbrev pub join_if : Option Err → Option Err → Option Err
join_if ret none = ret
join_if ret (some e) = join ret (some e)

abbrev pub detach_line : Bytes
detach_line = crlf ++ codes "Detached from session" ++ crlf

abbrev pub cleanup_of : Option Bytes → Bytes × Option Err
cleanup_of none = ([], some (errorf (codes "attach: render primary screen") emulator_error))
cleanup_of (some primary) =
    (esc (codes "[2J") ++ esc (codes "[H") ++ esc (codes "[0m") ++ primary, none)

abbrev pub rendered_error : Option Err → Option Err
rendered_error none = none
rendered_error (some err) = some (errorf (codes "attach: render final terminal state") err)

abbrev pub located_error : Option Err → Option Err
located_error none = none
located_error (some err) = some (errorf (codes "attach: locate final terminal state") err)

module _ {e : Engine} {c : Console} where
  abbrev pub screen_of : Models e c → Option Bytes → FinalScreen × Option Err
  screen_of m none = (no_screen, some emulator_error)
  screen_of m (some contents) = (
    record {
      contents = contents;
      cols = m.cols;
      rows = m.rows;
      physical_rows = m.physical_rows;
      written_rows = m.term.written_rows;
    },
    none,
  )

  -- `snapshotLocked`.
  unfoldable pub snapshot_locked : Models e c → FinalScreen × Option Err
  snapshot_locked m = screen_of m (dump_screen m.term)

  -- `nativeHintCleanup`.
  unfoldable pub native_hint_cleanup : Models e c → Models e c × Bytes × Option Err
  native_hint_cleanup m =
      let (term, primary) = dump_primary_screen m.term in
      let (cleanup, err) = cleanup_of primary in
      if m.hint_row == 0 || not m.hint_on_primary
      then (m, [], none)
      else (record m { term = term }, cleanup, err)

  -- A write whose error is joined to those before it.
  abbrev pub write_joining : Models e c × Option Err → Bytes → Models e c × Option Err
  write_joining (m, ret) s = let (m', err) = write_out m s in (m', join_if ret err)

  abbrev pub write_contents : Models e c × Option Err → Bytes → Models e c × Option Err
  write_contents r [] = r
  write_contents r (b ∷ s) = write_joining r (b ∷ s)

  -- Behind the first write of the final screen, which may have failed.
  abbrev pub final_rest :
      FinalScreen → Ending → Option Err → Models e c × Option Err → Models e c × Option Err
  final_rest s o ret (m, some err) = (m, join ret (some err))
  final_rest s o ret (m, none) =
      write_joining
        (write_joining (write_contents (m, ret) s.contents) (final_attach_outcome_prefix s))
        (message o ++ crlf)

  abbrev pub final_screen : Models e c → Ending → Option Err → Models e c × Option Err
  final_screen m o hint_err =
      let (s, err) = snapshot_locked m in
      final_rest s o (join_if hint_err (rendered_error err))
        (write_out m (final_attach_screen_prefix s))

  abbrev pub detach_text : Models e c → Bytes
  detach_text m =
      leave_alternate
      ++ ((if m.native_entered
            then native_cleanup
            else if ltb m.rows m.physical_rows
            then esc (codes "7") ++ esc (codes "[r") ++ esc (codes "8")
            else [])
          ++ detach_line)

  abbrev pub join_write : Option Err → Models e c × Option Err → Models e c × Option Err
  join_write err (m, err') = (m, join err err')

  -- The `switch` of `finishIsolated`.
  abbrev pub isolated_ending : Ending → Models e c → Option Err → Models e c × Option Err
  isolated_ending session_ended m err = final_screen m session_ended err
  isolated_ending disconnected m err = final_screen m disconnected err
  isolated_ending detached m err = join_write err (write_out m (detach_text m))
  isolated_ending aborted m err = join_write err (write_out m leave_alternate)

  abbrev pub after_cleanup : Ending → Option Err → Models e c × Option Err → Models e c × Option Err
  after_cleanup o hint_err (m, some err) = (m, join hint_err (some err))
  after_cleanup o hint_err (m, none) = isolated_ending o m hint_err

  -- `finishIsolated`.
  unfoldable pub finish_isolated : Models e c → Ending → Models e c × Option Err
  finish_isolated m0 o =
      let (m, cleanup, hint_err) = native_hint_cleanup m0 in
      if is_nil cleanup
      then isolated_ending o m hint_err
      else after_cleanup o hint_err (write_out m (leave_alternate ++ cleanup))

  -- What `finishNative` writes, with the screen to put the message below.
  abbrev pub native_text : Models e c → Bytes → FinalScreen → Ending → Bytes
  native_text m cleanup s o =
      (if m.term.alt then leave_alternate else [])
      ++ (native_cleanup
          ++ ((if m.shows_hint then esc (codes "[23;0t") else [])
              ++ (cleanup
                  ++ (if is_nil (message o)
                      then []
                      else final_attach_outcome_position (if m.term.alt then no_screen else s)
                        ++ (message o ++ crlf)))))

  -- `finishNative`.
  unfoldable pub finish_native : Models e c → Ending → Models e c × Option Err
  finish_native m o =
      let (s, err) = snapshot_locked m in
      let (m1, cleanup, hint_err) = native_hint_cleanup m in
      if not m.native_entered
      then (if is_nil (message o) then (m, none) else write_out m (crlf ++ message o ++ crlf))
      else join_write (join_if (located_error err) hint_err)
          (write_out m1 (native_text m cleanup s o))

  abbrev pub finish_as : Presentation → Ending → Option Err → Models e c → Models e c × Option Err
  finish_as isolated o err m = join_write err (finish_isolated m o)
  finish_as native o err m = join_write err (finish_native m o)
  finish_as pending o err m =
      if is_nil (message o)
      then (m, err)
      else join_write err (write_out m (crlf ++ message o ++ crlf))

  -- `finish`.
  unfoldable pub finish : Models e c → Ending → Models e c × Option Err
  finish m o = let (m1, err) = close_view m in finish_as m1.presentation o err m1
