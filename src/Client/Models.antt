-- ===== src/Client/Models.antt =====
-- attachmodels.go: the struct `attachModels`, its size and its two presentations. A method returns
-- the new struct with its outcome; `writeOut` and `writeBytes` write to the user's terminal `tty`.
pub mod Present
pub mod Ready
pub mod Presented
pub mod Applied
pub mod Live
pub mod Forced
pub mod Transcript
pub mod Passed
pub mod Finish
pub mod Leaves
mod Tests
pub mod Follow
use bgx.Base.{
  ℕ, ◌-◌, Bool, true, false, not, ◌&&◌, [], ◌∷◌, ◌++◌, Option, none, some, Bytes, codes, ltb, ◌==◌,
  if◌then◌else◌,
}
use bgx.Errors.{Err, join, errorf}
use bgx.Vt.{Engine, Vt, resize}
use bgx.Vt.Snapshot.{esc}
use bgx.Client.View.{Console, View, new_view, set_size, close, write_terminal, emulator_error}

pub data AttachMode : Type 0 where
  mode_auto mode_isolated mode_native : AttachMode

pub data Presentation : Type 0 where
  pending isolated native : Presentation

abbrev pub is_isolated : Presentation → Bool
is_isolated isolated = true
is_isolated _ = false

abbrev pub is_native : Presentation → Bool
is_native native = true
is_native _ = false

abbrev pub is_pending : Presentation → Bool
is_pending pending = true
is_pending _ = false

-- `hint_row` is 0 while the hint has not been shown; `view_errs` is a channel with room for one.
pub record Models (e : Engine) (c : Console) : Type 0 where
  pub term : Vt e
  pub mode : AttachMode
  pub shows_hint : Bool
  pub tty : c.Tty
  pub view_errs : Option Err
  pub presentation : Presentation
  pub view : Option View
  pub native_entered : Bool
  pub hint_row : ℕ
  pub hint_on_primary : Bool
  pub cols : ℕ
  pub rows : ℕ
  pub physical_rows : ℕ

abbrev pub default_cols : ℕ
default_cols = 80

abbrev pub default_rows : ℕ
default_rows = 24

-- How a call ends: a nil view that is used panics, and `stuck` is a loop out of fuel.
pub data Outcome : Type 0 where
  done panics stuck : Outcome
  fails : Err → Outcome

abbrev pub outcome_of : Option Err → Outcome
outcome_of none = done
outcome_of (some e) = fails e

abbrev pub isolated_entry : Bytes
isolated_entry = esc (codes "[?1049h") ++ esc (codes "[2J") ++ esc (codes "[H")

abbrev pub native_mode_reset : Bytes
native_mode_reset =
    esc (codes "[?1000l")
    ++ esc (codes "[?1002l")
    ++ esc (codes "[?1003l")
    ++ esc (codes "[?1006l")
    ++ esc (codes "[?1004l")
    ++ esc (codes "[?2004l")
    ++ esc (codes "[?1l")

-- The alternate screen is left, and the scroll region is released.
abbrev pub isolated_exit : Bytes
isolated_exit = esc (codes "[?1049l") ++ esc (codes "[r")

abbrev pub sized_view : ℕ → Bool → Option View → Option View
sized_view rows reserved none = none
sized_view rows reserved (some v) = some (set_size v rows reserved)

abbrev pub Result : Engine → Console → Type 0
Result e c = Models e c × Outcome

module _ {e : Engine} {c : Console} where
  abbrev pub new_models : Vt e → AttachMode → Bool → c.Tty → Models e c
  new_models term mode shows_hint tty = record {
    term = term;
    mode = mode;
    shows_hint = shows_hint;
    tty = tty;
    view_errs = none;
    presentation = pending;
    view = none;
    native_entered = false;
    hint_row = 0;
    hint_on_primary = false;
    cols = default_cols;
    rows = default_rows;
    physical_rows = default_rows;
  }

  -- `if err := ...; err != nil { return err }`, and on.
  abbrev pub and_then : Result e c → (Models e c → Result e c) → Result e c
  and_then (m, done) f = f m
  and_then (m, o) f = (m, o)

  unfoldable pub write_out : Models e c → Bytes → Models e c × Option Err
  write_out m s = let (tty', err) = write_terminal c m.tty s in (record m { tty = tty' }, err)

  abbrev pub written : Models e c → Bytes → Result e c
  written m s = let (m', err) = write_out m s in (m', outcome_of err)

  abbrev pub session_rows : Models e c → ℕ → ℕ
  session_rows m physical =
      if is_isolated m.presentation && m.shows_hint && ltb 1 physical
      then physical - 1
      else physical

  abbrev pub resized : Models e c → ℕ → ℕ → ℕ → Option (Vt e) → Result e c
  resized m cols rows physical none =
      (m, fails (errorf (codes "attach: resize terminal state") emulator_error))
  resized m cols rows physical (some term) = (
    record m {
      term = term;
      cols = cols;
      rows = rows;
      physical_rows = physical;
      view = sized_view rows (ltb rows physical) m.view;
    },
    done,
  )

  -- `resizeLocked`.
  unfoldable pub resize_locked : Models e c → ℕ → ℕ → Result e c
  resize_locked m cols physical =
      let rows = session_rows m physical in resized m cols rows physical (resize m.term cols rows)

  abbrev pub with_view : Models e c → Models e c
  with_view m = record m { view = some (new_view m.rows (ltb m.rows m.physical_rows)) }

  -- `enterIsolated`.
  unfoldable pub enter_isolated : Models e c → Result e c
  enter_isolated m0 =
      let m = record m0 { presentation = isolated } in
      and_then (resize_locked m m.cols m.physical_rows)
        (λ m1. and_then (written m1 isolated_entry) (λ m2. (with_view m2, done)))

  -- The view is closed, if there is one, and dropped.
  abbrev pub closed_view : Models e c → Option View → Models e c × Option Err
  closed_view m none = (record m { view = none }, none)
  closed_view m (some v) =
      let (v', tty', err) = close c v m.term m.tty in (record m { tty = tty'; view = none }, err)

  unfoldable pub close_view : Models e c → Models e c × Option Err
  close_view m = closed_view m m.view

  -- `errors.Join(err, resizeErr)` where the resize failed, and the way out of the alternate screen.
  abbrev pub left_isolated : Bool → Option Err → Result e c → Result e c
  left_isolated was err (m, done) =
      let (m', e') = write_out m isolated_exit in
      if was then (m', outcome_of (join err e')) else (m, outcome_of err)
  left_isolated was err (m, fails e') = (m, outcome_of (join err (some e')))
  left_isolated was err (m, o) = (m, o)

  -- `leaveIsolated`.
  unfoldable pub leave_isolated : Models e c → Result e c
  leave_isolated m0 =
      let (m1, err) = close_view m0 in
      let m2 = record m1 { presentation = native } in
      left_isolated (is_isolated m1.presentation) err (resize_locked m2 m2.cols m2.physical_rows)

  -- `followActiveScreen` in auto mode.
  abbrev pub turn_isolated : Models e c → Result e c
  turn_isolated m =
      and_then (if m.native_entered then written m native_mode_reset else (m, done)) enter_isolated

  -- On the alternate screen isolated is wanted, else native.
  abbrev pub follow_to : Bool → Presentation → Models e c → Result e c
  follow_to true isolated m = (m, done)
  follow_to true _ m = turn_isolated m
  follow_to false native m = (m, done)
  follow_to false _ m = leave_isolated m

  abbrev pub follow_for : AttachMode → Models e c → Result e c
  follow_for mode_auto m = follow_to m.term.alt m.presentation m
  follow_for _ m = (m, done)

  -- `followActiveScreen`.
  unfoldable pub follow_active_screen : Models e c → Result e c
  follow_active_screen m = follow_for m.mode m

  -- `start`.
  abbrev pub start_in : AttachMode → Models e c → Result e c
  start_in mode_isolated m = enter_isolated m
  start_in mode_native m = (record m { presentation = native }, done)
  start_in mode_auto m = (m, done)

  unfoldable pub start : Models e c → Result e c
  start m = start_in m.mode m
