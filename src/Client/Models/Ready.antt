-- ===== src/Client/Models/Ready.antt =====
-- What holds of the struct while nothing has failed.
use bgx.Base.{
  ℕ, ◌-◌, ◌≡◌, refl, sym, ap, subst, Bool, true, false, not, ◌&&◌, inl, inr, Option, none, some,
  Bytes, ltb, if◌then◌else◌, Option-cases,
}
use bgx.Errors.{Err, join}
use bgx.Vt.{Engine, Vt, resize}
use bgx.Client.View.{Console, View, new_view}
use bgx.Client.Models.{
  AttachMode, mode_auto, mode_isolated, mode_native, Presentation, pending, isolated, native,
  is_isolated, is_native, is_pending, Models, done, panics, stuck, fails, outcome_of, sized_view,
  Result, and_then, write_out, written, resized, resize_locked, enter_isolated, close_view,
  left_isolated, leave_isolated, isolated_entry, isolated_exit, closed_view,
}

-- The part of the struct that decides what is presented and how high it is.
pub record Seen : Type 0 where
  pub mode : AttachMode
  pub shows_hint : Bool
  pub presentation : Presentation
  pub view : Option View
  pub rows : ℕ
  pub physical_rows : ℕ
  pub alt : Bool

abbrev pub viewing : Option View → Bool
viewing none = false
viewing (some v) = true

abbrev pub rows_for : Bool → Presentation → ℕ → ℕ
rows_for shows_hint p physical =
    if is_isolated p && shows_hint && ltb 1 physical then physical - 1 else physical

abbrev pub Fits : Option View → ℕ → ℕ → Type 0
Fits none rows physical = Unit
Fits (some v) rows physical = (v.rows ≡ rows) × (v.reserved ≡ ltb rows physical)

-- A view exists exactly while isolated, at the advertised height, the line below it reserved exactly if
-- the terminal is higher; the advertised height is that of the presentation.
pub record Consistent (s : Seen) : Type 0 where
  pub viewed : viewing s.view ≡ is_isolated s.presentation
  pub fits : Fits s.view s.rows s.physical_rows
  pub sized : s.rows ≡ rows_for s.shows_hint s.presentation s.physical_rows

-- The presentation that the mode asks for: auto follows the active screen once it has begun.
abbrev pub agrees : AttachMode → Presentation → Bool → Bool
agrees mode_auto pending alt = true
agrees mode_auto isolated alt = alt
agrees mode_auto native alt = not alt
agrees mode_isolated p alt = is_isolated p
agrees mode_native p alt = is_native p

pub record IsReady (s : Seen) : Type 0 where
  pub consistent : Consistent s
  pub moded : agrees s.mode s.presentation s.alt ≡ true

-- Past the first output as well.
pub record IsSettled (s : Seen) : Type 0 where
  pub ready : IsReady s
  pub begun : is_pending s.presentation ≡ false

-- A new size.
abbrev pub at_size : Seen → ℕ → Seen
at_size s physical =
    let rows = rows_for s.shows_hint s.presentation physical in
    record s {
      rows = rows;
      physical_rows = physical;
      view = sized_view rows (ltb rows physical) s.view;
    }

alt-resize :
    {e : Engine} (t : Vt e) (cols rows : ℕ) (u : Vt e) → resize t cols rows ≡ some u → u.alt ≡ t.alt
unfolding resize
alt-resize {e} t cols rows u h = elim (Option-cases (e.set_size t.term cols rows)) [
  | inl refused ↦ cc (rw (refused, resize) at h)
  | inr (term, given) ↦
      ap (λ (o : Option (Vt e)). elim o [ none ↦ t.alt | some v ↦ v.alt ])
        (sym (rw (given, resize) at h))
]

module _ {e : Engine} {c : Console} where
  abbrev pub seen : Models e c → Seen
  seen m = record {
    mode = m.mode;
    shows_hint = m.shows_hint;
    presentation = m.presentation;
    view = m.view;
    rows = m.rows;
    physical_rows = m.physical_rows;
    alt = m.term.alt;
  }

  -- No panic, no loop that does not end, and `P` if nothing fails.
  abbrev pub Sound : (Seen → Type 0) → Result e c → Type 0
  Sound P (m, done) = P (seen m)
  Sound P (m, fails e) = Unit
  Sound P (m, panics) = ⊥
  Sound P (m, stuck) = ⊥

  pub and_then-Sound :
      (P Q : Seen → Type 0) (r : Result e c) (f : Models e c → Result e c)
      → Sound P r
      → ((m : Models e c) → P (seen m) → Sound Q (f m))
      → Sound Q (and_then r f)
  and_then-Sound P Q (m, done) f h k = k m h
  and_then-Sound P Q (m, fails e) f h k = tt
  and_then-Sound P Q (m, panics) f h k = h
  and_then-Sound P Q (m, stuck) f h k = h

  pub outcome_of-Sound :
      (P : Seen → Type 0) (m : Models e c) (err : Option Err)
      → P (seen m)
      → Sound P (m, outcome_of err)
  outcome_of-Sound P m none h = h
  outcome_of-Sound P m (some e) h = tt

  pub written-Sound :
      (P : Seen → Type 0) (m : Models e c) (s : Bytes) → P (seen m) → Sound P (written m s)
  unfolding write_out
  written-Sound P m s h = outcome_of-Sound P (write_out m s).0 (write_out m s).1 h

  resized-Sound :
      (P : Seen → Type 0) (m : Models e c) (cols physical : ℕ) (t : Option (Vt e))
      → ((term : Vt e) → t ≡ some term → term.alt ≡ m.term.alt)
      → P (at_size (seen m) physical)
      → Sound P (resized m cols (rows_for m.shows_hint m.presentation physical) physical t)
  resized-Sound P m cols physical none same h = tt
  resized-Sound P m cols physical (some term) same h =
      subst (λ (a : Bool). P (record (at_size (seen m) physical) { alt = a }))
        (sym (same term refl)) h

  pub resize_locked-Sound :
      (P : Seen → Type 0) (m : Models e c) (cols physical : ℕ)
      → P (at_size (seen m) physical)
      → Sound P (resize_locked m cols physical)
  unfolding resize_locked
  resize_locked-Sound P m cols physical h =
      resized-Sound P m cols physical _ (alt-resize m.term cols _) h

  pub enter_isolated-Sound :
      (P : Seen → Type 0) (m : Models e c)
      → (let s = at_size (record (seen m) { presentation = isolated }) m.physical_rows in
          P (record s { view = some (new_view s.rows (ltb s.rows s.physical_rows)) }))
      → Sound P (enter_isolated m)
  unfolding enter_isolated
  enter_isolated-Sound P m h =
      let m0 = record m { presentation = isolated } in
      let Q : Seen → Type 0 =
        λ s. P (record s { view = some (new_view s.rows (ltb s.rows s.physical_rows)) }) in
      and_then-Sound Q P (resize_locked m0 m0.cols m0.physical_rows) _
        (resize_locked-Sound Q m0 m0.cols m0.physical_rows h)
        (λ m1 h1.
          and_then-Sound Q P (written m1 isolated_entry) _ (written-Sound Q m1 isolated_entry h1)
            (λ m2 h2. h2))

  closed_view-seen :
      (m : Models e c) (v : Option View)
      → seen (closed_view m v).0 ≡ record (seen m) { view = none }
  closed_view-seen m none = refl
  closed_view-seen m (some v) = refl

  pub close_view-seen : (m : Models e c) → seen (close_view m).0 ≡ record (seen m) { view = none }
  unfolding close_view
  close_view-seen m = closed_view-seen m m.view

  left_isolated-Sound :
      (P : Seen → Type 0) (was : Bool) (err : Option Err) (r : Result e c)
      → Sound P r
      → Sound P (left_isolated was err r)
  unfolding write_out
  left_isolated-Sound P true err (m, done) h =
      outcome_of-Sound P (write_out m isolated_exit).0 (join err (write_out m isolated_exit).1) h
  left_isolated-Sound P false err (m, done) h = outcome_of-Sound P m err h
  left_isolated-Sound P was none (m, fails e') h = tt
  left_isolated-Sound P was (some err) (m, fails e') h = tt
  left_isolated-Sound P was err (m, panics) h = h
  left_isolated-Sound P was err (m, stuck) h = h

  pub leave_isolated-Sound :
      (P : Seen → Type 0) (m : Models e c)
      → P (at_size (record (seen m) { view = none; presentation = native }) m.physical_rows)
      → Sound P (leave_isolated m)
  unfolding leave_isolated
  leave_isolated-Sound P m h =
      let m1 = (close_view m).0 in
      let m2 = record m1 { presentation = native } in
      let same = close_view-seen m in
      left_isolated-Sound P (is_isolated m1.presentation) (close_view m).1 _ (
        resize_locked-Sound P m2 m2.cols m2.physical_rows (
          subst (λ (s : Seen). P (at_size (record s { presentation = native }) s.physical_rows))
            (sym same) h))
