-- ===== src/Client/Models/Tests.antt =====
-- Runs of an attachment over a terminal that keeps its writes.
use bgx.Base.{
  arith, ℕ, ◌+◌, ◌≡◌, refl, true, false, [], ◌∷◌, ◌++◌, none, some, Bytes, codes, length, replicate,
  digits_from,
}
use bgx.Vt.{
  Engine, new_vt, write, write_loop, write_round, flush, note_byte, track_sequence,
  parse_mode_param, set_mode, resize, write_until_screen_switch,
}
use bgx.Vtscan.{step}
use bgx.Vt.Snapshot.{esc, mode_sequences}
use bgx.Client.View.{Console, View, new_view}
use bgx.Client.Models.{
  mode_auto, mode_isolated, mode_native, isolated, native, Models, done, new_models, start,
  enter_isolated, close_view, write_out, resize_locked, follow_active_screen, leave_isolated,
}
use bgx.Client.Models.Present.{
  apply_output, apply_resize, apply_loop, present_raw, present_from_model, enter_native,
  show_native_hint_once, native_repaint, mark_view, applied,
}
use bgx.Client.Models.Finish.{detached, finish}
use bgx.Client.Models.Ready.{IsReady, IsSettled, seen, Sound}
use bgx.Client.Models.Applied.{SoundApplied}
use bgx.Client.Models.Live.{Live, started, output, Live-Sound}
use bgx.Client.Models.Forced.{taken, apply_output-isolated}
use bgx.Client.Models.Transcript.{Transcript}
use bgx.Client.Models.Passed.{Told, given_for, apply_outputs, apply_outputs-Told}
use bgx.Client.Models.Leaves.{logging, LeavesFirst, finish-LeavesFirst}

abbrev counter : Engine
counter = record {
  Term = ℕ;
  vt_write = λ t p. t + length p;
  cursor_x = λ t. some 2;
  cursor_y = λ t. some 3;
  set_size = λ t cols rows. some t;
  format = λ t. some (codes "ab");
}

abbrev paper : Console
paper = record { Tty = Unit; put = λ t s. (tt, length s, none) }

abbrev fresh : Models counter paper
fresh = new_models (new_vt counter 0) mode_auto true tt

-- The session is on the alternate screen.
abbrev switching : Bytes
switching = codes "x" ++ esc (codes "[?1049h") ++ codes "y"

abbrev after_first : Models counter paper
after_first = (apply_output fresh (codes "a")).models

abbrev after_switch : Models counter paper
after_switch = (apply_output after_first switching).models

first_output :
    apply_output fresh (codes "a")
    ≡ record { models = after_first; resized = false; outcome = done }
unfolding apply_output follow_active_screen leave_isolated close_view resize_locked resize write
    write_loop write_round flush note_byte step present_from_model enter_native native_repaint
    show_native_hint_once write_out replicate digits_from mode_sequences
first_output = refl

second_output :
    apply_output after_first switching
    ≡ record { models = after_switch; resized = true; outcome = done }
unfolding apply_output follow_active_screen leave_isolated close_view resize_locked resize write
    write_loop write_round flush note_byte step present_from_model enter_native native_repaint
    show_native_hint_once write_out apply_loop write_until_screen_switch track_sequence
    parse_mode_param set_mode present_raw enter_isolated mark_view replicate digits_from
    mode_sequences
second_output = refl

-- The hint was drawn on the primary screen, below the row of the cursor; the rest is isolated, a row
-- lower than the terminal.
after_switch_state :
    (after_switch.presentation ≡ isolated)
    × (after_switch.rows ≡ 23)
    × (after_switch.hint_row ≡ 5)
    × (after_switch.hint_on_primary ≡ true)
    × (after_switch.term.alt ≡ true)
unfolding apply_output follow_active_screen leave_isolated close_view resize_locked resize write
    write_loop write_round flush note_byte step present_from_model enter_native native_repaint
    show_native_hint_once write_out apply_loop write_until_screen_switch track_sequence
    parse_mode_param set_mode present_raw enter_isolated mark_view replicate digits_from
    mode_sequences
after_switch_state = (refl, refl, refl, refl, refl)

fresh_started : start fresh ≡ (fresh, done)
unfolding start
fresh_started = refl

switched_live : Live after_switch
switched_live =
    output switching true
      (output (codes "a") false (started (new_vt counter 0) mode_auto true tt fresh_started)
        first_output)
      second_output

Live-Sound_example :
    IsReady (seen after_switch)
    × ((p : Bytes) → SoundApplied IsSettled (apply_output after_switch p))
    × ((cols physical : ℕ)
        → let r = apply_resize after_switch cols physical in Sound IsReady (r.0, r.2))
Live-Sound_example = Live-Sound switched_live

abbrev a_view : View
a_view = new_view 23 true

abbrev forced_isolated : Models counter paper
forced_isolated = record (new_models (new_vt counter 0) mode_isolated true tt) {
  presentation = isolated;
  rows = 23;
  view = some a_view;
}

apply_output-isolated_example :
    apply_output forced_isolated (codes "x")
    ≡ applied false (taken forced_isolated (codes "x") a_view)
apply_output-isolated_example =
    apply_output-isolated forced_isolated (codes "x") a_view refl refl refl

-- A terminal that keeps what it is given.
abbrev scroll : Console
scroll = record { Tty = Bytes; put = λ t s. (t ++ s, length s, none) }

abbrev scroll_kept : Transcript scroll
scroll_kept = record {
  next = λ t s. t ++ s;
  shown = λ t. t;
  takes = λ t s. refl;
  shows = λ t s. refl;
}

abbrev forced_native : Models counter scroll
forced_native = record (new_models (new_vt counter 0) mode_native true []) { presentation = native }

apply_outputs-Told_example :
    Told scroll_kept forced_native
      (codes "x" ∷ codes "y" ∷ [])
      (given_for false true forced_native (codes "x") ++ codes "y")
      (apply_outputs forced_native (codes "x" ∷ codes "y" ∷ []))
unfolding write write_loop write_round flush note_byte step
apply_outputs-Told_example =
    apply_outputs-Told scroll_kept forced_native (codes "x") (codes "y" ∷ []) refl refl
      (refl, (refl, tt)) (omega arith)

abbrev logged : Models counter (logging paper)
logged = record (new_models (new_vt counter 0) mode_auto true (tt, [])) {
  presentation = isolated;
  rows = 23;
  view = some a_view;
}

finish-LeavesFirst_example :
    LeavesFirst (close_view logged).0.tty.1 (finish logged detached).0.tty.1
finish-LeavesFirst_example = finish-LeavesFirst paper logged detached refl
