-- ===== src/Client/Models/Follow.antt =====
-- `followActiveScreen` and what it settles.
use bgx.Base.{◌≡◌, refl, Bool, true, false, none, some, ltb, if◌then◌else◌}
use bgx.Vt.{Engine}
use bgx.Client.View.{Console, new_view}
use bgx.Client.Models.{
  AttachMode, mode_auto, mode_isolated, mode_native, Presentation, pending, isolated, native,
  is_pending, Models, done, written, turn_isolated, follow_to, follow_for, follow_active_screen,
  native_mode_reset,
}
use bgx.Client.Models.Ready.{
  Seen, Consistent, agrees, IsSettled, seen, Sound, and_then-Sound, written-Sound, at_size,
  enter_isolated-Sound, leave_isolated-Sound,
}

-- Isolation from a state without a view, and the way back.
abbrev pub entered : Seen → Seen
entered s =
    let s' = at_size (record s { presentation = isolated }) s.physical_rows in
    record s' { view = some (new_view s'.rows (ltb s'.rows s'.physical_rows)) }

abbrev left : Seen → Seen
left s = at_size (record s { view = none; presentation = native }) s.physical_rows

pub entered-Consistent : (s : Seen) → Consistent (entered s)
entered-Consistent s = record { viewed = refl; fits = (refl, refl); sized = refl }

left-Consistent : (s : Seen) → Consistent (left s)
left-Consistent s = record { viewed = refl; fits = tt; sized = refl }

settled :
    (s : Seen) (mode : AttachMode) (p : Presentation) (alt : Bool)
    → s.mode ≡ mode
    → s.presentation ≡ p
    → s.alt ≡ alt
    → agrees mode p alt ≡ true
    → is_pending p ≡ false
    → Consistent s
    → IsSettled s
settled s mode p alt em ep ea agree begun h = record {
  ready = record { consistent = h; moded = rw (em, ep, ea) agree };
  begun = rw ep begun;
}

-- A forced mode agrees with a presentation whatever the screen is.
forced_by :
    (s : Seen) (a : Bool) (mode : AttachMode) (p : Presentation)
    → s.mode ≡ mode
    → s.presentation ≡ p
    → (mode ≡ mode_auto → ⊥)
    → agrees mode p a ≡ true
    → Consistent s
    → IsSettled s
forced_by s a mode_auto p em ep forced agree h = absurd (forced refl)
forced_by s a mode_isolated isolated em ep forced agree h =
    settled s mode_isolated isolated s.alt em ep refl refl refl h
forced_by s a mode_isolated pending em ep forced agree h = cc
forced_by s a mode_isolated native em ep forced agree h = cc
forced_by s a mode_native native em ep forced agree h =
    settled s mode_native native s.alt em ep refl refl refl h
forced_by s a mode_native pending em ep forced agree h = cc
forced_by s a mode_native isolated em ep forced agree h = cc

pub forced-IsSettled :
    (s : Seen) (a : Bool)
    → (s.mode ≡ mode_auto → ⊥)
    → agrees s.mode s.presentation a ≡ true
    → Consistent s
    → IsSettled s
forced-IsSettled s a forced agree h = forced_by s a s.mode s.presentation refl refl forced agree h

module _ {e : Engine} {c : Console} where
  reset-Sound :
      (P : Seen → Type 0) (b : Bool) (m : Models e c)
      → P (seen m)
      → Sound P (if b then written m native_mode_reset else (m, done))
  reset-Sound P true m h = written-Sound P m native_mode_reset h
  reset-Sound P false m h = h

  turn_isolated-Sound :
      (P : Seen → Type 0) (m : Models e c) → P (entered (seen m)) → Sound P (turn_isolated m)
  turn_isolated-Sound P m h =
      let Q : Seen → Type 0 = λ s. P (entered s) in
      and_then-Sound Q P (if m.native_entered then written m native_mode_reset else (m, done)) _
        (reset-Sound Q m.native_entered m h) (λ m1 h1. enter_isolated-Sound P m1 h1)

  follow_to-Sound :
      (m : Models e c) (alt : Bool) (p : Presentation)
      → m.mode ≡ mode_auto
      → m.term.alt ≡ alt
      → m.presentation ≡ p
      → Consistent (seen m)
      → Sound IsSettled (follow_to alt p m)
  follow_to-Sound m true isolated auto a pr h =
      settled (seen m) mode_auto isolated true auto pr a refl refl h
  follow_to-Sound m true pending auto a pr h = turn_isolated-Sound IsSettled m (
      settled (entered (seen m)) mode_auto isolated true auto refl a refl refl
        (entered-Consistent (seen m)))
  follow_to-Sound m true native auto a pr h = turn_isolated-Sound IsSettled m (
      settled (entered (seen m)) mode_auto isolated true auto refl a refl refl
        (entered-Consistent (seen m)))
  follow_to-Sound m false native auto a pr h =
      settled (seen m) mode_auto native false auto pr a refl refl h
  follow_to-Sound m false pending auto a pr h = leave_isolated-Sound IsSettled m (
      settled (left (seen m)) mode_auto native false auto refl a refl refl
        (left-Consistent (seen m)))
  follow_to-Sound m false isolated auto a pr h = leave_isolated-Sound IsSettled m (
      settled (left (seen m)) mode_auto native false auto refl a refl refl
        (left-Consistent (seen m)))

  follow_for-Sound :
      (m : Models e c) (mode : AttachMode) (a : Bool)
      → m.mode ≡ mode
      → Consistent (seen m)
      → agrees m.mode m.presentation a ≡ true
      → Sound IsSettled (follow_for mode m)
  follow_for-Sound m mode_auto a is h agree =
      follow_to-Sound m m.term.alt m.presentation is refl refl h
  follow_for-Sound m mode_isolated a is h agree = forced-IsSettled (seen m) a (λ auto. cc) agree h
  follow_for-Sound m mode_native a is h agree = forced-IsSettled (seen m) a (λ auto. cc) agree h

  -- Whatever screen the struct agreed with before.
  pub follow_active_screen-Sound :
      (m : Models e c) (a : Bool)
      → Consistent (seen m)
      → agrees m.mode m.presentation a ≡ true
      → Sound IsSettled (follow_active_screen m)
  unfolding follow_active_screen
  follow_active_screen-Sound m a h agree = follow_for-Sound m m.mode a refl h agree
