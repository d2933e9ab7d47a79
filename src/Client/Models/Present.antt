-- ===== src/Client/Models/Present.antt =====
-- attachmodels.go: how output and sizes reach the terminal. The loop of `applyOutput` has a round for
-- each byte as fuel.
use bgx.Base.{
  ℕ, zero, suc, ◌+◌, ◌%◌, ◌^◌, min, Bool, true, false, not, ◌||◌, [], ◌∷◌, ◌++◌, Option, none, some,
  Bytes, codes, decimal, has_prefix, flatten, replicate, length, take, drop, ltb, ◌==◌,
  if◌then◌else◌,
}
use bgx.Errors.{errorf}
use bgx.Vt.{Engine, write, write_until_screen_switch}
use bgx.Vt.Snapshot.{esc, dump_screen, mode_sequences, snapshot, snapshot_prefix}
use bgx.Client.View.{Console, mark_dirty, hint_on_row, emulator_error, painter_turn}
use bgx.Client.View.{View, painter_turn}
use bgx.Client.Models.{
  AttachMode, Presentation, mode_auto, mode_native, pending, isolated, native, is_pending, Models,
  Outcome, done, panics, stuck, fails, Result, and_then, written, resize_locked,
  follow_active_screen,
}

-- The title is pushed and set.
abbrev pub native_title_hint : Bytes
native_title_hint = esc (codes "[22;0t") ++ esc (codes "]0;bgx: detach with ctrl+\\") ++ 0x07 ∷ []

abbrev pub crlf : Bytes
crlf = 0x0d ∷ 0x0a ∷ []

-- The cursor at the bottom, and a line more for each row.
abbrev pub scroll_away : ℕ → Bytes
scroll_away rows =
    if ltb 0 rows
    then esc (codes "[") ++ decimal rows ++ codes ";1H" ++ flatten (replicate rows crlf)
    else []

abbrev pub repaint_of : Bytes → Option Bytes → Option Bytes
repaint_of modes none = none
repaint_of modes (some screen) =
    some (esc (codes "[2J") ++ esc (codes "[H") ++ esc (codes "[0m") ++ (screen ++ modes))

pub record Applied (e : Engine) (c : Console) : Type 0 where
  pub models : Models e c
  pub resized : Bool
  pub outcome : Outcome

module _ {e : Engine} {c : Console} where
  -- `m.view.markDirty()`.
  abbrev pub marked_view : Models e c → Option View → Result e c
  marked_view m none = (m, panics)
  marked_view m (some v) = (record m { view = some (mark_dirty v) }, done)

  unfoldable pub mark_view : Models e c → Result e c
  mark_view m = marked_view m m.view

  abbrev pub native_entry : Models e c → Bytes
  native_entry m =
      scroll_away m.physical_rows
      ++ esc (codes "[H")
      ++ (if m.shows_hint then native_title_hint else [])

  -- `enterNative`.
  unfoldable pub enter_native : Models e c → Result e c
  enter_native m =
      if m.native_entered
      then (m, done)
      else written (record m { native_entered = true }) (native_entry m)

  -- `nativeRepaint`.
  abbrev pub repaint_in : AttachMode → Models e c → Models e c × Option Bytes
  repaint_in mode_native m = let (term, out) = snapshot m.term in (record m { term = term }, out)
  repaint_in _ m = (m, repaint_of (mode_sequences m.term) (dump_screen m.term))

  unfoldable pub native_repaint : Models e c → Models e c × Option Bytes
  native_repaint m = repaint_in m.mode m

  abbrev pub hint_target : Models e c → ℕ
  hint_target m = min ((m.term.written_rows + 1) % 2 ^ 16) m.physical_rows

  -- `showNativeHintOnce`; `WrittenRows` has no error to return.
  unfoldable pub show_native_hint_once : Models e c → Result e c
  show_native_hint_once m =
      if not m.shows_hint || not (m.hint_row == 0) || m.physical_rows == 0
      then (m, done)
      else written (record m { hint_row = hint_target m; hint_on_primary = not m.term.alt })
          (hint_on_row (hint_target m))

  abbrev pub repainted : Models e c × Option Bytes → Result e c
  repainted (m, none) = (m, fails (errorf (codes "attach: render terminal state") emulator_error))
  repainted (m, some out) =
      and_then (written m out) (λ m'. show_native_hint_once (record m' { hint_on_primary = false }))

  -- `presentFromModel`.
  abbrev pub present_model_as : Presentation → Models e c → Result e c
  present_model_as isolated m = mark_view m
  present_model_as native m = and_then (enter_native m) (λ m1. repainted (native_repaint m1))
  present_model_as pending m = (m, done)

  unfoldable pub present_from_model : Models e c → Result e c
  present_from_model m = present_model_as m.presentation m

  -- `presentRaw`.
  abbrev pub present_raw_as : Presentation → Bytes → Models e c → Result e c
  present_raw_as isolated p m = mark_view m
  present_raw_as native p m =
      and_then (enter_native m) (λ m1. and_then (written m1 p) (λ m2. show_native_hint_once m2))
  present_raw_as pending p m = (m, done)

  unfoldable pub present_raw : Bytes → Models e c → Result e c
  present_raw p m = present_raw_as m.presentation p m

  -- `return resized, err`, or on.
  abbrev pub or_return : Result e c → Bool → (Models e c → Applied e c) → Applied e c
  or_return (m, done) resized f = f m
  or_return (m, o) resized f = record { models = m; resized = resized; outcome = o }

  abbrev pub applied : Bool → Models e c → Applied e c
  applied resized m = record { models = m; resized = resized; outcome = done }

  -- The first result of `followActiveScreen`, from the structs before and after it.
  abbrev pub rows_changed : Models e c → Models e c → Bool
  rows_changed before after = not (after.rows == before.rows)

  abbrev pub present_before : ℕ → Bytes → Models e c → Result e c
  present_before before p m = if ltb 0 before then present_raw (take before p) m else (m, done)

  -- The loop of `applyOutput` in auto mode.
  unfoldable pub apply_loop : ℕ → Models e c → Bool → Bytes → Applied e c
  apply_loop fuel m resized [] = applied resized m
  apply_loop zero m resized (b ∷ p) = record { models = m; resized = resized; outcome = stuck }
  apply_loop (suc fuel) m resized (b ∷ p) =
      let w = write_until_screen_switch m.term (b ∷ p) in
      or_return (present_before w.before (b ∷ p) (record m { term = w.vt })) resized (λ m1.
        if not w.switched
        then applied resized m1
        else or_return (follow_active_screen m1) resized (λ m2.
          let resized' = resized || rows_changed m1 m2 in
          or_return (present_from_model m2) resized'
            (λ m3. apply_loop fuel m3 resized' (drop w.consumed (b ∷ p)))))

  -- A snapshot, or the first output: the state is taken up first.
  abbrev pub synchronize : Models e c → Bytes → Applied e c
  synchronize m p =
      let m1 = record m { term = write m.term p } in
      let followed = follow_active_screen m1 in
      let resized = rows_changed m1 followed.0 in
      or_return followed resized (λ m2. or_return (present_from_model m2) resized (applied resized))

  abbrev pub stream_in : AttachMode → Models e c → Bytes → Applied e c
  stream_in mode_auto m p = apply_loop (length p) m false p
  stream_in _ m p =
      or_return (present_raw p (record m { term = write m.term p })) false (applied false)

  -- `applyOutput`.
  unfoldable pub apply_output : Models e c → Bytes → Applied e c
  apply_output m p =
      if is_pending m.presentation || has_prefix snapshot_prefix p
      then synchronize m p
      else stream_in m.mode m p

  -- `applyResize`: the rows to advertise, 0 for none.
  unfoldable pub apply_resize : Models e c → ℕ → ℕ → Models e c × ℕ × Outcome
  apply_resize m cols physical =
      let (m', o) = resize_locked m cols physical in
      if cols == 0 || physical == 0
      then (m, 0, done)
      else (m', elim o [ done ↦ m'.rows | _ ↦ 0 ], o)

  abbrev pub painted_view : Models e c → Option View → Models e c
  painted_view m none = m
  painted_view m (some v) =
      let (v', tty', errs) = painter_turn c v m.term m.tty m.view_errs in
      record m { view = some v'; tty = tty'; view_errs = errs }

  -- A round of the goroutine that paints the view.
  unfoldable pub paint_turn : Models e c → Models e c
  paint_turn m = painted_view m m.view
