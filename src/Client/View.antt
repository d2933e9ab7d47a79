-- ===== src/Client/View.antt =====
-- attachview.go: the painter of the isolated presentation, and writing to the terminal as
-- client_attach.go does it. The goroutine of `paintLoop` is the step `painter_turn`.
mod Tests
use bgx.Base.{
  ℕ, ◌+◌, ◌%◌, ◌^◌, Bool, true, false, not, ◌&&◌, [], ◌∷◌, ◌++◌, Option, none, some, Bytes, codes,
  decimal, length, ◌==◌, if◌then◌else◌,
}
use bgx.Errors.{Err, leaf, short_write, other, errorf}
use bgx.Vt.{Engine, Vt}
use bgx.Vt.Snapshot.{esc, dump_screen}

-- The user's terminal, an `io.Writer`: what a write leaves, how much it wrote, and its error.
pub record Console : Type 1 where
  pub Tty : Type 0
  pub put : Tty → Bytes → Tty × ℕ × Option Err

-- The result of a write of `s`.
abbrev pub written_error : Bytes → ℕ → Option Err → Option Err
written_error s n (some e) = some (errorf (codes "attach: write terminal") e)
written_error s n none =
    if n == length s
    then none
    else some (errorf (codes "attach: write terminal") (leaf short_write))

abbrev pub detach_hint : Bytes
detach_hint = codes " detach: ctrl+\\ "

abbrev pub detach_hint_style : Bytes
detach_hint_style = esc (codes "[48;5;236;38;5;250m")

-- `wake` holds a request where `dirty`; `painting` until the goroutine has returned.
pub record View : Type 0 where
  pub rows : ℕ
  pub reserved : Bool
  pub dirty : Bool
  pub painting : Bool
  pub closed : Bool

abbrev pub mark_dirty : View → View
mark_dirty v = record v { dirty = true }

-- `newAttachView`.
abbrev pub new_view : ℕ → Bool → View
new_view rows reserved = record {
  rows = rows;
  reserved = reserved;
  dirty = true;
  painting = true;
  closed = false;
}

abbrev pub set_size : View → ℕ → Bool → View
set_size v rows reserved = mark_dirty (record v { rows = rows; reserved = reserved })

-- An error of the emulator library.
abbrev pub emulator_error : Err
emulator_error = leaf (other (codes "emulator"))

-- Save the cursor, draw the hint on a row, restore the cursor.
abbrev pub hint_on_row : ℕ → Bytes
hint_on_row row =
    esc (codes "7")
    ++ esc (codes "[")
    ++ decimal row
    ++ codes ";1H"
    ++ detach_hint_style
    ++ esc (codes "[2K")
    ++ detach_hint
    ++ esc (codes "[0m")
    ++ esc (codes "8")

-- What `paint` writes for the rendered screen.
abbrev pub painting_of : View → Bytes → Bytes
painting_of v screen =
    esc (codes "[?2026h")
    ++ (if v.reserved then esc (codes "[1;") ++ decimal v.rows ++ codes "r" else esc (codes "[r"))
    ++ esc (codes "[2J")
    ++ esc (codes "[H")
    ++ esc (codes "[m")
    ++ screen
    ++ (if v.reserved then hint_on_row ((v.rows + 1) % 2 ^ 16) else [])
    ++ esc (codes "[?2026l")

abbrev pub paint_error : Option Err → Option Err
paint_error none = none
paint_error (some e) = some (errorf (codes "paint attach view") e)

abbrev failed : Option Err → Bool
failed none = false
failed (some e) = true

-- `v.errs <- err` on a channel with room for one, which is dropped if there is none.
abbrev pub report : Option Err → Option Err → Option Err
report (some e) err = some e
report none err = err

module _ (c : Console) where
  -- `writeOut` and `writeBytes` of `runTerminalAttach`.
  abbrev pub write_terminal : c.Tty → Bytes → c.Tty × Option Err
  write_terminal tty s = let (tty', n, e) = c.put tty s in (tty', written_error s n e)

  abbrev pub paint_screen : View → c.Tty → Option Bytes → c.Tty × Option Err
  paint_screen v tty none = (tty, some (errorf (codes "render attach view") emulator_error))
  paint_screen v tty (some screen) =
      let (tty', e) = write_terminal tty (painting_of v screen) in (tty', paint_error e)

  module _ {e : Engine} where
    unfoldable pub paint : View → Vt e → c.Tty → c.Tty × Option Err
    paint v term tty = paint_screen v tty (dump_screen term)

    -- `close`: the goroutine has returned, and a request that is left is served.
    unfoldable pub close : View → Vt e → c.Tty → View × c.Tty × Option Err
    close v term tty =
        let (tty', err) = paint v term tty in
        let shut = record v { closed = true; painting = false } in
        if v.closed
        then (v, tty, none)
        else if v.dirty
        then (record shut { dirty = false }, tty', err)
        else (shut, tty, none)

    -- A round of `paintLoop` that finds a request: the view, the terminal and the channel of errors.
    unfoldable pub painter_turn : View → Vt e → c.Tty → Option Err → View × c.Tty × Option Err
    painter_turn v term tty errs =
        let (tty', err) = paint v term tty in
        if v.painting && v.dirty
        then (record v { dirty = false; painting = not (failed err) }, tty', report errs err)
        else (v, tty, errs)
