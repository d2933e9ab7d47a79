-- ===== src/Client/Models/Leaves.antt =====
-- What an attachment writes at its end, first.
use bgx.Base.{
  ◌≡◌, refl, sym, subst, ap, ◌∙◌, Bool, true, false, not, ◌||◌, inl, inr, List, [], ◌∷◌, ◌++◌,
  Option, none, some, Bytes, has_prefix, append_assoc, append-nil, ◌==◌, if◌then◌else◌, Bool-cases,
}
use bgx.Errors.{Err}
use bgx.Vt.{Engine}
use bgx.Client.View.{Console}
use bgx.Client.Models.{isolated, Models, write_out, close_view}
use bgx.Client.Models.Ready.{Seen, close_view-seen}
use bgx.Client.Models.Finish.{
  Ending, aborted, detached, session_ended, disconnected, is_nil, leave_alternate, FinalScreen,
  final_attach_screen_prefix, final_attach_outcome_prefix, native_hint_cleanup, snapshot_locked,
  write_joining, write_contents, final_rest, final_screen, detach_text, isolated_ending,
  after_cleanup, finish_isolated, finish,
}

-- A terminal, with the writes that have been tried.
abbrev pub logging : Console → Console
logging c = record {
  Tty = c.Tty × List Bytes;
  put = λ t s. let (tty, n, err) = c.put t.0 s in ((tty, t.1 ++ s ∷ []), n, err);
}

-- What has been written since stands behind.
record Grows (before after : List Bytes) : Type 0 where
  more : List Bytes
  is : after ≡ before ++ more

-- The next write leaves the alternate screen.
pub record LeavesFirst (before after : List Bytes) : Type 0 where
  pub first : Bytes
  pub more : List Bytes
  pub is : after ≡ before ++ first ∷ more
  pub leaves : has_prefix leave_alternate first ≡ true

trans-Grows : {a b d : List Bytes} → Grows a b → Grows b d → Grows a d
trans-Grows {a} g h = record {
  more = g.more ++ h.more;
  is = h.is ∙ ap (◌++ h.more) g.is ∙ append_assoc a g.more h.more;
}

same-Grows : (a : List Bytes) → Grows a a
same-Grows a = record { more = []; is = sym (append-nil a) }

then-Grows : {a b d : List Bytes} → LeavesFirst a b → Grows b d → LeavesFirst a d
then-Grows {a} l g = record {
  first = l.first;
  more = l.more ++ g.more;
  is = g.is ∙ ap (◌++ g.more) l.is ∙ append_assoc a (l.first ∷ l.more) g.more;
  leaves = l.leaves;
}

module _ {e : Engine} (c : Console) where
  write_out-log :
      (m : Models e (logging c)) (s : Bytes) → (write_out m s).0.tty.1 ≡ m.tty.1 ++ s ∷ []
  unfolding write_out
  write_out-log m s = refl

  write_joining-Grows :
      (r : Models e (logging c) × Option Err) (s : Bytes)
      → Grows r.0.tty.1 (write_joining r s).0.tty.1
  write_joining-Grows (m, ret) s = record { more = s ∷ []; is = write_out-log m s }

  write_contents-Grows :
      (r : Models e (logging c) × Option Err) (s : Bytes)
      → Grows r.0.tty.1 (write_contents r s).0.tty.1
  write_contents-Grows r [] = same-Grows r.0.tty.1
  write_contents-Grows r (b ∷ s) = write_joining-Grows r (b ∷ s)

  final_rest-Grows :
      (s : FinalScreen) (o : Ending) (ret : Option Err) (r : Models e (logging c) × Option Err)
      → Grows r.0.tty.1 (final_rest s o ret r).0.tty.1
  final_rest-Grows s o ret (m, some err) = same-Grows m.tty.1
  final_rest-Grows s o ret (m, none) =
      let a = write_contents (m, ret) s.contents in
      let b = write_joining a (final_attach_outcome_prefix s) in
      trans-Grows (write_contents-Grows (m, ret) s.contents) (
        trans-Grows (write_joining-Grows a (final_attach_outcome_prefix s))
          (write_joining-Grows b _))

  write_out-LeavesFirst :
      (m : Models e (logging c)) (s : Bytes)
      → has_prefix leave_alternate s ≡ true
      → LeavesFirst m.tty.1 (write_out m s).0.tty.1
  write_out-LeavesFirst m s h = record { first = s; more = []; is = write_out-log m s; leaves = h }

  final_screen-LeavesFirst :
      (m : Models e (logging c)) (o : Ending) (hint_err : Option Err)
      → LeavesFirst m.tty.1 (final_screen m o hint_err).0.tty.1
  unfolding final_attach_screen_prefix
  final_screen-LeavesFirst m o hint_err =
      let s = (snapshot_locked m).0 in
      then-Grows (write_out-LeavesFirst m (final_attach_screen_prefix s) refl)
        (final_rest-Grows s o _ (write_out m (final_attach_screen_prefix s)))

  isolated_ending-LeavesFirst :
      (o : Ending) (m : Models e (logging c)) (err : Option Err)
      → LeavesFirst m.tty.1 (isolated_ending o m err).0.tty.1
  isolated_ending-LeavesFirst session_ended m err = final_screen-LeavesFirst m session_ended err
  isolated_ending-LeavesFirst disconnected m err = final_screen-LeavesFirst m disconnected err
  isolated_ending-LeavesFirst detached m err = write_out-LeavesFirst m (detach_text m) refl
  isolated_ending-LeavesFirst aborted m err = write_out-LeavesFirst m leave_alternate refl

  after_cleanup-Grows :
      (o : Ending) (hint_err : Option Err) (r : Models e (logging c) × Option Err)
      → Grows r.0.tty.1 (after_cleanup o hint_err r).0.tty.1
  after_cleanup-Grows o hint_err (m, some err) = same-Grows m.tty.1
  after_cleanup-Grows o hint_err (m, none) =
      let l = isolated_ending-LeavesFirst o m hint_err in
      record { more = l.first ∷ l.more; is = l.is }

  cleanup-tty : (m : Models e (logging c)) → (native_hint_cleanup m).0.tty.1 ≡ m.tty.1
  unfolding native_hint_cleanup
  cleanup-tty m = elim (Bool-cases (m.hint_row == 0 || not m.hint_on_primary)) [
    | inl not_due ↦ rw not_due refl
    | inr due ↦ rw due refl
  ]

  isolated_as :
      (b : Bool) (o : Ending) (m : Models e (logging c)) (cleanup : Bytes) (err : Option Err)
      → LeavesFirst m.tty.1
          (if b
            then isolated_ending o m err
            else after_cleanup o err (write_out m (leave_alternate ++ cleanup))).0.tty.1
  isolated_as true o m cleanup err = isolated_ending-LeavesFirst o m err
  isolated_as false o m cleanup err =
      then-Grows (write_out-LeavesFirst m (leave_alternate ++ cleanup) refl)
        (after_cleanup-Grows o err (write_out m (leave_alternate ++ cleanup)))

  finish_isolated-LeavesFirst :
      (m : Models e (logging c)) (o : Ending) → LeavesFirst m.tty.1 (finish_isolated m o).0.tty.1
  unfolding finish_isolated
  finish_isolated-LeavesFirst m o =
      let (m1, cleanup, err) = native_hint_cleanup m in
      subst (λ (l : List Bytes). LeavesFirst l (finish_isolated m o).0.tty.1) (cleanup-tty m)
        (isolated_as (is_nil cleanup) o m1 cleanup err)

  -- Whatever ends an attachment that is presented in isolation, and whatever fails: behind the last
  -- painting of the view, the first write that `finish` tries leaves the alternate screen.
  pub finish-LeavesFirst :
      (m : Models e (logging c)) (o : Ending)
      → m.presentation ≡ isolated
      → LeavesFirst (close_view m).0.tty.1 (finish m o).0.tty.1
  unfolding finish
  finish-LeavesFirst m o h =
      let m1 = (close_view m).0 in
      let there : m1.presentation ≡ isolated =
        ap (λ (s : Seen). s.presentation) (close_view-seen m) ∙ h in
      rw there (finish_isolated-LeavesFirst m1 o)
