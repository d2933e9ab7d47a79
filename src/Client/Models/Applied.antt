-- ===== src/Client/Models/Applied.antt =====
-- `applyOutput` on a struct that is ready.
use bgx.Base.{
  ℕ, zero, suc, ◌≤◌, ◌<◌, ◌≡◌, refl, ap, ◌∙◌, subst, Bool, true, false, ◌||◌, inl, inr, [], ◌∷◌,
  Bytes, ltb, length, drop, take, length-drop, has_prefix, if◌then◌else◌, Bool-cases, arith,
}
use bgx.Vt.{Engine, write, write_until_screen_switch}
use bgx.Vt.Snapshot.{snapshot_prefix}
use bgx.Vt.Switch.{turned, write_until_screen_switch-alt}
use bgx.Client.View.{Console}
use bgx.Client.Models.{
  AttachMode, mode_auto, mode_isolated, mode_native, is_pending, Models, done, panics, stuck, fails,
  Result, follow_active_screen,
}
use bgx.Client.Models.Present.{
  Applied, present_from_model, present_raw, or_return, applied, present_before, apply_loop,
  synchronize, stream_in, apply_output,
}
use bgx.Client.Models.Ready.{Seen, Consistent, IsReady, IsSettled, seen, Sound}
use bgx.Client.Models.Follow.{follow_active_screen-Sound, forced-IsSettled}
use bgx.Client.Models.Presented.{
  Stable, IsSettled-Stable, InStream, stream-Stable, present_raw-Sound, present_from_model-Sound,
}

-- What a round leaves to do is less.
rest_fits :
    (n fuel : ℕ) (b : ℕ) (p : Bytes)
    → 0 < n
    → length (b ∷ p) ≤ suc fuel
    → length (drop n (b ∷ p)) ≤ fuel
rest_fits n fuel b p h fits = omega (arith, length-drop n (b ∷ p))

-- Behind a write, which changes the screen at most.
other_screen : (s : Seen) (a : Bool) → Consistent s → Consistent (record s { alt = a })
other_screen s a h = record { viewed = h.viewed; fits = h.fits; sized = h.sized }

-- In a stream that has not switched the screen.
stays-Settled : (before : Bool) (s : Seen) → InStream before before s → IsSettled s
stays-Settled before s h = record {
  ready = record { consistent = h.consistent; moded = rw h.screen h.agree };
  begun = h.begun;
}

or_false : (x y : Bool) → (x || y) ≡ false → x ≡ false
or_false true y h = h
or_false false y h = refl

module _ {e : Engine} {c : Console} where
  -- No panic, no loop that does not end, and `P` if nothing fails.
  abbrev pub SoundApplied : (Seen → Type 0) → Applied e c → Type 0
  SoundApplied P a = Sound P (a.models, a.outcome)

  or_return-Sound :
      (P Q : Seen → Type 0) (r : Result e c) (resized : Bool) (f : Models e c → Applied e c)
      → Sound P r
      → ((m : Models e c) → P (seen m) → SoundApplied Q (f m))
      → SoundApplied Q (or_return r resized f)
  or_return-Sound P Q (m, done) resized f h k = k m h
  or_return-Sound P Q (m, fails e') resized f h k = tt
  or_return-Sound P Q (m, panics) resized f h k = h
  or_return-Sound P Q (m, stuck) resized f h k = h

  present_before-Sound :
      (P : Seen → Type 0) (n : ℕ) (p : Bytes) (m : Models e c)
      → Stable P
      → P (seen m)
      → Sound P (present_before n p m)
  present_before-Sound P n p m stable h = elim (Bool-cases (ltb 0 n)) [
    | inl some_before ↦ rw some_before (present_raw-Sound P (take n p) m stable h)
    | inr nothing ↦ rw nothing h
  ]

  apply_loop-Sound :
      (fuel : ℕ) (m : Models e c) (resized : Bool) (p : Bytes)
      → length p ≤ fuel
      → IsSettled (seen m)
      → SoundApplied IsSettled (apply_loop fuel m resized p)
  unfolding apply_loop
  apply_loop-Sound fuel m resized [] fits h = h
  apply_loop-Sound zero m resized (b ∷ p) fits h = absurd (omega arith)
  apply_loop-Sound (suc fuel) m resized (b ∷ p) fits h =
      let w = write_until_screen_switch m.term (b ∷ p) in
      let (progress, screen) = write_until_screen_switch-alt m.term b p in
      let m0 = record m { term = w.vt } in
      let P = InStream m.term.alt w.vt.alt in
      let start : P (seen m0) = record {
        consistent = other_screen (seen m) w.vt.alt h.ready.consistent;
        agree = h.ready.moded;
        screen = refl;
        begun = h.begun;
      } in
      or_return-Sound P IsSettled (present_before w.before (b ∷ p) m0) resized _
        (present_before-Sound P w.before (b ∷ p) m0 (stream-Stable m.term.alt w.vt.alt) start)
        (λ m1 h1. elim (Bool-cases w.switched) [
          | inl switched ↦ rw switched (
              or_return-Sound IsSettled IsSettled (follow_active_screen m1) resized _
                (follow_active_screen-Sound m1 m.term.alt h1.consistent h1.agree)
                (λ m2 h2.
                  or_return-Sound IsSettled IsSettled (present_from_model m2) _ _
                    (present_from_model-Sound IsSettled m2 IsSettled-Stable h2)
                    (λ m3 h3.
                      apply_loop-Sound fuel m3 _ (drop w.consumed (b ∷ p))
                        (rest_fits w.consumed fuel b p progress fits) h3)))
          | inr stays ↦
              let same : w.vt.alt ≡ m.term.alt = screen ∙ ap (λ x. turned x m.term.alt) stays in
              rw stays (
                stays-Settled m.term.alt (seen m1)
                  (subst (λ (a : Bool). InStream m.term.alt a (seen m1)) same h1))
        ])

  synchronize-Sound :
      (m : Models e c) (p : Bytes) → IsReady (seen m) → SoundApplied IsSettled (synchronize m p)
  synchronize-Sound m p h =
      let m1 = record m { term = write m.term p } in
      or_return-Sound IsSettled IsSettled (follow_active_screen m1) _ _
        (follow_active_screen-Sound m1 m.term.alt (other_screen (seen m) m1.term.alt h.consistent)
          h.moded)
        (λ m2 h2.
          or_return-Sound IsSettled IsSettled (present_from_model m2) _ _
            (present_from_model-Sound IsSettled m2 IsSettled-Stable h2) (λ m3 h3. h3))

  forced-Sound :
      (m : Models e c) (p : Bytes)
      → (m.mode ≡ mode_auto → ⊥)
      → IsSettled (seen m)
      → SoundApplied IsSettled
          (or_return (present_raw p (record m { term = write m.term p })) false (applied false))
  forced-Sound m p forced h =
      let m1 = record m { term = write m.term p } in
      or_return-Sound IsSettled IsSettled (present_raw p m1) false _
        (present_raw-Sound IsSettled p m1 IsSettled-Stable (
          forced-IsSettled (seen m1) m.term.alt forced h.ready.moded
            (other_screen (seen m) m1.term.alt h.ready.consistent)))
        (λ m2 h2. h2)

  stream_in-Sound :
      (mode : AttachMode) (m : Models e c) (p : Bytes)
      → m.mode ≡ mode
      → IsSettled (seen m)
      → SoundApplied IsSettled (stream_in mode m p)
  stream_in-Sound mode_auto m p is h = apply_loop-Sound (length p) m false p (omega arith) h
  stream_in-Sound mode_isolated m p is h = forced-Sound m p (λ auto. cc) h
  stream_in-Sound mode_native m p is h = forced-Sound m p (λ auto. cc) h

  chosen-Sound :
      (P : Seen → Type 0) (b : Bool) (x y : Applied e c)
      → (b ≡ true → SoundApplied P x)
      → (b ≡ false → SoundApplied P y)
      → SoundApplied P (if b then x else y)
  chosen-Sound P true x y h k = h refl
  chosen-Sound P false x y h k = k refl

  pub apply_output-Sound :
      (m : Models e c) (p : Bytes) → IsReady (seen m) → SoundApplied IsSettled (apply_output m p)
  unfolding apply_output
  apply_output-Sound m p h =
      chosen-Sound IsSettled (is_pending m.presentation || has_prefix snapshot_prefix p) _ _
        (λ waits. synchronize-Sound m p h)
        (λ goes_on.
          stream_in-Sound m.mode m p refl
            (record { ready = h; begun = or_false (is_pending m.presentation) _ goes_on }))
