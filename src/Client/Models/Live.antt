-- ===== src/Client/Models/Live.antt =====
-- An attachment as a sequence of calls, none of which has failed.
use bgx.Base.{
  ℕ, ◌≡◌, refl, sym, ap, ◌∙◌, subst, Bool, ◌&&◌, ◌||◌, inl, inr, Option, none, some, Bytes, ltb,
  ◌==◌, Bool-cases,
}
use bgx.Errors.{Err}
use bgx.Vt.{Engine, Vt}
use bgx.Client.View.{Console, View, painter_turn}
use bgx.Client.Models.{
  AttachMode, mode_auto, mode_isolated, mode_native, Models, Outcome, done, new_models, sized_view,
  start,
}
use bgx.Client.Models.Present.{apply_output, apply_resize, painted_view, paint_turn}
use bgx.Client.Models.Ready.{
  Seen, IsReady, IsSettled, viewing, Fits, seen, Sound, at_size, resize_locked-Sound,
  enter_isolated-Sound,
}
use bgx.Client.Models.Follow.{entered-Consistent}
use bgx.Client.Models.Applied.{SoundApplied, apply_output-Sound}

pub data Live {e : Engine} {c : Console} : Models e c → Type 0 where
  started :
      {m : Models e c} (term : Vt e) (mode : AttachMode) (shows_hint : Bool) (tty : c.Tty)
      → start (new_models term mode shows_hint tty) ≡ (m, done)
      → Live m
  output :
      {m m' : Models e c} (p : Bytes) (resized : Bool)
      → Live m
      → apply_output m p ≡ record { models = m'; resized = resized; outcome = done }
      → Live m'
  sized :
      {m m' : Models e c} (cols physical rows : ℕ)
      → Live m
      → apply_resize m cols physical ≡ (m', rows, done)
      → Live m'
  painted : {m : Models e c} → Live m → Live (paint_turn m)

sized_view-Fits :
    (v : Option View) (rows physical : ℕ)
    → Fits (sized_view rows (ltb rows physical) v) rows physical
sized_view-Fits none rows physical = tt
sized_view-Fits (some v) rows physical = (refl, refl)

viewing-sized_view :
    (v : Option View) (rows : ℕ) (reserved : Bool)
    → viewing (sized_view rows reserved v) ≡ viewing v
viewing-sized_view none rows reserved = refl
viewing-sized_view (some v) rows reserved = refl

at_size-IsReady : (s : Seen) (physical : ℕ) → IsReady s → IsReady (at_size s physical)
at_size-IsReady s physical h = record {
  consistent = record {
    viewed = viewing-sized_view s.view _ _ ∙ h.consistent.viewed;
    fits = sized_view-Fits s.view _ physical;
    sized = refl;
  };
  moded = h.moded;
}

painter_turn-size :
    {e : Engine} (c : Console) (v : View) (term : Vt e) (tty : c.Tty) (errs : Option Err)
    → let v' = (painter_turn c v term tty errs).0 in (v'.rows ≡ v.rows) × (v'.reserved ≡ v.reserved)
unfolding painter_turn
painter_turn-size c v term tty errs = elim (Bool-cases (v.painting && v.dirty)) [
  | inl paints ↦ rw paints (refl, refl)
  | inr rests ↦ rw rests (refl, refl)
]

module _ {e : Engine} (c : Console) where
  start-Sound :
      (term : Vt e) (mode : AttachMode) (shows_hint : Bool) (tty : c.Tty)
      → Sound IsReady (start (new_models {e = e} {c = c} term mode shows_hint tty))
  unfolding start
  start-Sound term mode_auto shows_hint tty = record {
    consistent = record { viewed = refl; fits = tt; sized = refl };
    moded = refl;
  }
  start-Sound term mode_native shows_hint tty = record {
    consistent = record { viewed = refl; fits = tt; sized = refl };
    moded = refl;
  }
  start-Sound term mode_isolated shows_hint tty =
      let m = new_models {e = e} {c = c} term mode_isolated shows_hint tty in
      enter_isolated-Sound IsReady m
        (record { consistent = entered-Consistent (seen m); moded = refl })

module _ {e : Engine} {c : Console} where
  painted_view-IsReady :
      (m : Models e c) (v : Option View)
      → m.view ≡ v
      → IsReady (seen m)
      → IsReady (seen (painted_view m v))
  painted_view-IsReady m none is h = h
  painted_view-IsReady m (some v) is h =
      let (rows, reserved) = painter_turn-size c v m.term m.tty m.view_errs in
      let (fit, kept) : Fits (some v) m.rows m.physical_rows =
        subst (λ (o : Option View). Fits o m.rows m.physical_rows) is h.consistent.fits in
      record {
        consistent = record {
          viewed = sym (ap viewing is) ∙ h.consistent.viewed;
          fits = (rows ∙ fit, reserved ∙ kept);
          sized = h.consistent.sized;
        };
        moded = h.moded;
      }

  paint_turn-IsReady : (m : Models e c) → IsReady (seen m) → IsReady (seen (paint_turn m))
  unfolding paint_turn
  paint_turn-IsReady m h = painted_view-IsReady m m.view refl h

  apply_resize-Sound :
      (m : Models e c) (cols physical : ℕ)
      → IsReady (seen m)
      → let r = apply_resize m cols physical in Sound IsReady (r.0, r.2)
  unfolding apply_resize
  apply_resize-Sound m cols physical h = elim (Bool-cases (cols == 0 || physical == 0)) [
    | inl nothing ↦ rw nothing h
    | inr sizes ↦
        rw sizes (resize_locked-Sound IsReady m cols physical (at_size-IsReady (seen m) physical h))
  ]

  Live-IsReady : {m : Models e c} → Live m → IsReady (seen m)
  Live-IsReady (started term mode shows_hint tty is) =
      subst (Sound IsReady) is (start-Sound c term mode shows_hint tty)
  Live-IsReady (output {m} p resized before is) =
      (subst (SoundApplied IsSettled) is (apply_output-Sound m p (Live-IsReady before))).ready
  Live-IsReady (sized {m} cols physical rows before is) =
      subst (λ (r : Models e c × ℕ × Outcome). Sound IsReady (r.0, r.2)) is
        (apply_resize-Sound m cols physical (Live-IsReady before))
  Live-IsReady (painted {m} before) = paint_turn-IsReady m (Live-IsReady before)

  -- In every attachment, for any output, sizes and rounds of the painter of which none has failed: a
  -- view is there exactly while the session is presented in isolation, at the height that is
  -- advertised, which leaves a row for the hint exactly if there is one and the hint is asked for; a
  -- forced mode keeps its presentation, and auto, once it has begun, follows the active screen.
  -- What comes next never uses a missing view, ends, and if it does not fail keeps all this; output
  -- has begun the presentation then.
  pub Live-Sound :
      {m : Models e c}
      → Live m
      → IsReady (seen m)
        × ((p : Bytes) → SoundApplied IsSettled (apply_output m p))
        × ((cols physical : ℕ) → let r = apply_resize m cols physical in Sound IsReady (r.0, r.2))
  Live-Sound {m} live =
      let h = Live-IsReady live in
      (h, (λ p. apply_output-Sound m p h), (λ cols physical. apply_resize-Sound m cols physical h))
