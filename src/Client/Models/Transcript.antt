-- ===== src/Client/Models/Transcript.antt =====
-- An output in the native mode, over a terminal that takes every write whole.
use bgx.Base.{
  ℕ, ◌≡◌, refl, ap, ◌∙◌, Bool, true, false, not, ◌||◌, ◌++◌, Option, none, Bytes, has_prefix, ◌==◌,
  if◌then◌else◌, arith, length,
}
use bgx.Errors.{Err}
use bgx.Vt.{Engine, write}
use bgx.Vt.Snapshot.{snapshot_prefix}
use bgx.Client.View.{Console, written_error, hint_on_row}
use bgx.Client.Models.{
  mode_native, native, is_pending, Models, done, Result, and_then, outcome_of, write_out, written,
}
use bgx.Client.Models.Present.{
  native_entry, enter_native, hint_target, show_native_hint_once, present_raw, present_raw_as,
  stream_in, apply_output, synchronize, or_return, applied,
}

-- A terminal that takes every write whole, and what it was given.
pub record Transcript (c : Console) : Type 0 where
  pub next : c.Tty → Bytes → c.Tty
  pub shown : c.Tty → Bytes
  pub takes : (tty : c.Tty) (s : Bytes) → c.put tty s ≡ (next tty s, length s, none)
  pub shows : (tty : c.Tty) (s : Bytes) → shown (next tty s) ≡ shown tty ++ s

whole : (s : Bytes) → written_error s (length s) none ≡ none
whole s = let same : (length s == length s) ≡ true = ground arith in rw same refl

module _ {e : Engine} {c : Console} where
  -- The hint has not been shown, and there is a row for it.
  abbrev pub hint_due : Models e c → Bool
  hint_due m = not (not m.shows_hint || not (m.hint_row == 0) || m.physical_rows == 0)

  -- What the steps of the presentation leave of the struct.
  abbrev pub entered : Transcript c → Bool → Models e c → Models e c
  entered l true m = m
  entered l false m = record m { native_entered = true; tty = l.next m.tty (native_entry m) }

  abbrev pub told : Transcript c → Bytes → Models e c → Models e c
  told l p m = record m { tty = l.next m.tty p }

  abbrev pub hinted : Transcript c → Bool → Models e c → Models e c
  hinted l true m = record m {
    hint_row = hint_target m;
    hint_on_primary = not m.term.alt;
    tty = l.next m.tty (hint_on_row (hint_target m));
  }
  hinted l false m = m

  abbrev pub passed : Transcript c → Bool → Bool → Models e c → Bytes → Models e c
  passed l inside due m p =
      hinted l due (told l p (entered l inside (record m { term = write m.term p })))

  written_whole : (l : Transcript c) (m : Models e c) (s : Bytes) → written m s ≡ (told l s m, done)
  unfolding write_out
  written_whole l m s =
      ap
        (λ (x : c.Tty × ℕ × Option Err).
          (record m { tty = x.0 }, outcome_of (written_error s x.1 x.2)))
        (l.takes m.tty s)
      ∙ ap (λ (x : Option Err). (told l s m, outcome_of x)) (whole s)

  enter_is :
      (l : Transcript c) (m : Models e c) (inside : Bool)
      → m.native_entered ≡ inside
      → enter_native m ≡ (entered l inside m, done)
  unfolding enter_native
  enter_is l m true h = rw h refl
  enter_is l m false h =
      ap
        (λ (b : Bool).
          if b then (m, done) else written (record m { native_entered = true }) (native_entry m))
        h
      ∙ written_whole l (record m { native_entered = true }) (native_entry m)

  hint_is :
      (l : Transcript c) (m : Models e c) (due : Bool)
      → hint_due m ≡ due
      → show_native_hint_once m ≡ (hinted l due m, done)
  unfolding show_native_hint_once
  hint_is l m due h =
      hint_by (not m.shows_hint || not (m.hint_row == 0) || m.physical_rows == 0) due h
    where
      hint_by :
          (b due : Bool)
          → not b ≡ due
          → (if b
              then (m, done)
              else written
                  (record m { hint_row = hint_target m; hint_on_primary = not m.term.alt })
                  (hint_on_row (hint_target m)))
            ≡ (hinted l due m, done)
      hint_by true false h = refl
      hint_by false true h =
          written_whole l (record m { hint_row = hint_target m; hint_on_primary = not m.term.alt })
            (hint_on_row (hint_target m))
      hint_by true true h = cc
      hint_by false false h = cc

  raw_is :
      (l : Transcript c) (m : Models e c) (p : Bytes) (inside due : Bool)
      → m.native_entered ≡ inside
      → hint_due (told l p (entered l inside m)) ≡ due
      → present_raw_as native p m ≡ (hinted l due (told l p (entered l inside m)), done)
  raw_is l m p inside due h k =
      ap
        (λ (r : Result e c).
          and_then r (λ m1. and_then (written m1 p) (λ m2. show_native_hint_once m2)))
        (enter_is l m inside h)
      ∙ ap (λ (r : Result e c). and_then r (λ m2. show_native_hint_once m2))
          (written_whole l (entered l inside m) p)
      ∙ hint_is l (told l p (entered l inside m)) due k

  still_due :
      (l : Transcript c) (m : Models e c) (p : Bytes) (inside : Bool)
      → hint_due (told l p (entered l inside m)) ≡ hint_due m
  still_due l m p true = refl
  still_due l m p false = refl

  pub output_is :
      (l : Transcript c) (m : Models e c) (p : Bytes) (inside due : Bool)
      → m.mode ≡ mode_native
      → m.presentation ≡ native
      → has_prefix snapshot_prefix p ≡ false
      → m.native_entered ≡ inside
      → hint_due m ≡ due
      → apply_output m p ≡ applied false (passed l inside due m p)
  unfolding apply_output present_raw
  output_is l m p inside due mode at stream h k =
      let goes_on : (is_pending m.presentation || has_prefix snapshot_prefix p) ≡ false =
        ap (λ x. is_pending x || has_prefix snapshot_prefix p) at ∙ stream in
      let m1 = record m { term = write m.term p } in
      ap (λ b. if b then synchronize m p else stream_in m.mode m p) goes_on
      ∙ ap (λ x. stream_in x m p) mode
      ∙ ap (λ x. or_return (present_raw_as x p m1) false (applied false)) at
      ∙ ap (λ (r : Result e c). or_return r false (applied false))
          (raw_is l m1 p inside due h (still_due l m1 p inside ∙ k))
