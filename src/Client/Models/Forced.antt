-- ===== src/Client/Models/Forced.antt =====
-- Output in the isolated mode.
use bgx.Base.{
  ℕ, ◌≡◌, refl, ap, ◌∙◌, Bool, true, false, not, some, Bytes, ◌==◌, if◌then◌else◌, arith,
}
use bgx.Vt.{Engine, write}
use bgx.Client.View.{Console, View, mark_dirty}
use bgx.Client.Models.{mode_isolated, isolated, Models, done, follow_active_screen}
use bgx.Client.Models.Present.{
  mark_view, present_from_model, present_raw, present_raw_as, present_model_as, stream_in,
  apply_output, synchronize, applied,
}

either_way : {A : Type 0} {x y z : A} (b : Bool) → x ≡ z → y ≡ z → (if b then x else y) ≡ z
either_way true h k = h
either_way false h k = k

same_rows : (n : ℕ) → not (n == n) ≡ false
same_rows n = ground arith

module _ {e : Engine} {c : Console} where
  -- The session taken up, and a painting asked for.
  abbrev pub taken : Models e c → Bytes → View → Models e c
  taken m p v = record m { term = write m.term p; view = some (mark_dirty v) }

  mark_view-taken :
      (m : Models e c) (v : View)
      → m.view ≡ some v
      → mark_view m ≡ (record m { view = some (mark_dirty v) }, done)
  unfolding mark_view
  mark_view-taken m v is = rw is refl

  present_raw-taken :
      (m : Models e c) (p : Bytes) (v : View)
      → m.presentation ≡ isolated
      → m.view ≡ some v
      → present_raw p m ≡ (record m { view = some (mark_dirty v) }, done)
  unfolding present_raw
  present_raw-taken m p v at is = ap (λ x. present_raw_as x p m) at ∙ mark_view-taken m v is

  present_from_model-taken :
      (m : Models e c) (v : View)
      → m.presentation ≡ isolated
      → m.view ≡ some v
      → present_from_model m ≡ (record m { view = some (mark_dirty v) }, done)
  unfolding present_from_model
  present_from_model-taken m v at is = ap (λ x. present_model_as x m) at ∙ mark_view-taken m v is

  follow-isolated : (m : Models e c) → m.mode ≡ mode_isolated → follow_active_screen m ≡ (m, done)
  unfolding follow_active_screen
  follow-isolated m h = rw h refl

  synchronize-taken :
      (m : Models e c) (p : Bytes) (v : View)
      → m.mode ≡ mode_isolated
      → m.presentation ≡ isolated
      → m.view ≡ some v
      → synchronize m p ≡ applied false (taken m p v)
  synchronize-taken m p v mode at is =
      let m1 = record m { term = write m.term p } in
      rw (follow-isolated m1 mode, present_from_model-taken m1 v at is, same_rows m.rows) refl

  forced-taken :
      (m : Models e c) (p : Bytes) (v : View)
      → m.presentation ≡ isolated
      → m.view ≡ some v
      → stream_in mode_isolated m p ≡ applied false (taken m p v)
  forced-taken m p v at is =
      rw (present_raw-taken (record m { term = write m.term p }) p v at is) refl

  -- In isolated mode no output reaches the terminal: `applyOutput` never fails, takes the output up in
  -- the model and asks the painter for a painting, and does nothing else, be it a snapshot or not.
  pub apply_output-isolated :
      (m : Models e c) (p : Bytes) (v : View)
      → m.mode ≡ mode_isolated
      → m.presentation ≡ isolated
      → m.view ≡ some v
      → apply_output m p ≡ applied false (taken m p v)
  unfolding apply_output
  apply_output-isolated m p v mode at is =
      either_way _ (synchronize-taken m p v mode at is)
        (ap (λ x. stream_in x m p) mode ∙ forced-taken m p v at is)
