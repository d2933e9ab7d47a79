-- ===== src/Client/Models/Passed.antt =====
-- A stream of outputs in the native mode.
use bgx.Base.{
  ℕ, ◌≡◌, ◌<◌, ◌+◌, ◌^◌, ◌%◌, refl, sym, ap, ◌∙◌, subst, Bool, true, false, not, ◌||◌, List, [],
  ◌∷◌, ◌++◌, Bytes, has_prefix, ◌==◌, if◌then◌else◌, arith, All, flatten, append_assoc, append-nil,
  min,
}
use bgx.Vt.{Engine, Vt, write}
use bgx.Vt.Snapshot.{snapshot_prefix}
use bgx.Client.View.{Console, hint_on_row}
use bgx.Client.Models.{mode_native, native, Models, Outcome, done}
use bgx.Client.Models.Present.{Applied, native_entry, hint_target, apply_output, applied}
use bgx.Client.Models.Transcript.{Transcript, hint_due, entered, told, hinted, passed, output_is}

-- The emulator behind the outputs.
abbrev pub writes : {e : Engine} → Vt e → List Bytes → Vt e
writes t [] = t
writes t (p ∷ ps) = writes (write t p) ps

-- No output is a snapshot.
abbrev pub Streams : List Bytes → Type 0
Streams ps = All (λ (p : Bytes). has_prefix snapshot_prefix p ≡ false) ps

or_true : (a b : Bool) → not (a || true || b) ≡ false
or_true true b = refl
or_true false b = refl

last_of : (a b d : Bool) → not (a || b || d) ≡ true → d ≡ false
last_of false false d h = not_true d h
  where
    not_true : (d : Bool) → not d ≡ true → d ≡ false
    not_true false h = refl
    not_true true h = cc
last_of false true d h = cc
last_of true b d h = cc

row_there :
    (w physical : ℕ)
    → w + 1 < 2 ^ 16
    → (physical == 0) ≡ false
    → (min ((w + 1) % 2 ^ 16) physical == 0) ≡ false
row_there w physical room h = ground arith

module _ {e : Engine} {c : Console} where
  -- `applyOutput` of one output after the other, up to one that fails.
  abbrev pub go_on : Outcome → Applied e c → Applied e c → Applied e c
  go_on done a rest = rest
  go_on _ a rest = a

  abbrev pub apply_outputs : Models e c → List Bytes → Applied e c
  apply_outputs m [] = applied false m
  apply_outputs m (p ∷ ps) =
      let a = apply_output m p in let rest = apply_outputs a.models ps in go_on a.outcome a rest

  -- How a run of outputs ends that goes well: what the terminal was given on the way, and the model.
  pub record Told (l : Transcript c) (m : Models e c) (ps : List Bytes) (given : Bytes)
      (a : Applied e c) : Type 0 where
    pub outcome : a.outcome ≡ done
    pub resized : a.resized ≡ false
    pub shown : l.shown a.models.tty ≡ l.shown m.tty ++ given
    pub term : a.models.term ≡ writes m.term ps

  -- Nothing but output is due any more.
  record Settled (m : Models e c) : Type 0 where
    mode : m.mode ≡ mode_native
    presentation : m.presentation ≡ native
    inside : m.native_entered ≡ true
    no_hint : hint_due m ≡ false

  then_run :
      (m m' : Models e c) (p : Bytes) (ps : List Bytes)
      → apply_output m p ≡ applied false m'
      → apply_outputs m (p ∷ ps) ≡ apply_outputs m' ps
  then_run m m' p ps h = ap (λ (a : Applied e c). go_on a.outcome a (apply_outputs a.models ps)) h

  Settled-run :
      (l : Transcript c) (m : Models e c) (ps : List Bytes)
      → Settled m
      → Streams ps
      → Told l m ps (flatten ps) (apply_outputs m ps)
  Settled-run l m [] s tt = record {
    outcome = refl;
    resized = refl;
    shown = sym (append-nil (l.shown m.tty));
    term = refl;
  }
  Settled-run l m (p ∷ ps) s (stream, streams) =
      let m' = passed l true false m p in
      let s' : Settled m' = record {
        mode = s.mode;
        presentation = s.presentation;
        inside = s.inside;
        no_hint = s.no_hint;
      } in
      let rest = Settled-run l m' ps s' streams in
      let is = output_is l m p true false s.mode s.presentation stream s.inside s.no_hint in
      subst (Told l m (p ∷ ps) (p ++ flatten ps)) (sym (then_run m m' p ps is)) (record {
        outcome = rest.outcome;
        resized = rest.resized;
        shown =
            rest.shown
            ∙ ap (λ (t : Bytes). t ++ flatten ps) (l.shows m.tty p)
            ∙ append_assoc (l.shown m.tty) p (flatten ps);
        term = rest.term;
      })

  -- What the terminal is given for an output.
  abbrev pub given_for : Bool → Bool → Models e c → Bytes → Bytes
  given_for inside due m p =
      (if inside then [] else native_entry m)
      ++ (p ++ (if due then hint_on_row (hint_target (record m { term = write m.term p })) else []))

  entered_shown :
      (l : Transcript c) (m : Models e c) (inside : Bool)
      → l.shown (entered l inside m).tty ≡ l.shown m.tty ++ (if inside then [] else native_entry m)
  entered_shown l m true = sym (append-nil (l.shown m.tty))
  entered_shown l m false = l.shows m.tty (native_entry m)

  hinted_shown :
      (l : Transcript c) (m : Models e c) (due : Bool)
      → l.shown (hinted l due m).tty
        ≡ l.shown m.tty ++ (if due then hint_on_row (hint_target m) else [])
  hinted_shown l m true = l.shows m.tty (hint_on_row (hint_target m))
  hinted_shown l m false = sym (append-nil (l.shown m.tty))

  same_target :
      (l : Transcript c) (m : Models e c) (p : Bytes) (inside : Bool)
      → hint_target (told l p (entered l inside m)) ≡ hint_target m
  same_target l m p true = refl
  same_target l m p false = refl

  passed_shown :
      (l : Transcript c) (m : Models e c) (p : Bytes) (inside due : Bool)
      → l.shown (passed l inside due m p).tty ≡ l.shown m.tty ++ given_for inside due m p
  passed_shown l m p inside due =
      let m1 = record m { term = write m.term p } in
      let m2 = entered l inside m1 in
      let entry : Bytes = if inside then [] else native_entry m in
      let hint : ℕ → Bytes = λ n. if due then hint_on_row n else [] in
      hinted_shown l (told l p m2) due
      ∙ ap (λ (n : ℕ). l.shown (l.next m2.tty p) ++ hint n) (same_target l m1 p inside)
      ∙ ap (λ (t : Bytes). t ++ hint (hint_target m1)) (l.shows m2.tty p)
      ∙ ap (λ (t : Bytes). (t ++ p) ++ hint (hint_target m1)) (entered_shown l m1 inside)
      ∙ append_assoc (l.shown m.tty ++ entry) p (hint (hint_target m1))
      ∙ append_assoc (l.shown m.tty) entry (p ++ hint (hint_target m1))

  passed_term :
      (l : Transcript c) (m : Models e c) (p : Bytes) (inside due : Bool)
      → (passed l inside due m p).term ≡ write m.term p
  passed_term l m p true true = refl
  passed_term l m p true false = refl
  passed_term l m p false true = refl
  passed_term l m p false false = refl

  passed-Settled :
      (l : Transcript c) (m : Models e c) (p : Bytes) (inside due : Bool)
      → m.mode ≡ mode_native
      → m.presentation ≡ native
      → m.native_entered ≡ inside
      → hint_due m ≡ due
      → (due ≡ true → (hint_target (record m { term = write m.term p }) == 0) ≡ false)
      → Settled (passed l inside due m p)
  passed-Settled l m p true true mode at h k row = record {
    mode = mode;
    presentation = at;
    inside = h;
    no_hint = rw (row refl) (or_true (not m.shows_hint) (m.physical_rows == 0));
  }
  passed-Settled l m p true false mode at h k row = record {
    mode = mode;
    presentation = at;
    inside = h;
    no_hint = k;
  }
  passed-Settled l m p false true mode at h k row = record {
    mode = mode;
    presentation = at;
    inside = refl;
    no_hint = rw (row refl) (or_true (not m.shows_hint) (m.physical_rows == 0));
  }
  passed-Settled l m p false false mode at h k row = record {
    mode = mode;
    presentation = at;
    inside = refl;
    no_hint = k;
  }

  hint_row_there :
      (m : Models e c) (p : Bytes)
      → (write m.term p).written_rows + 1 < 2 ^ 16
      → hint_due m ≡ true
      → (hint_target (record m { term = write m.term p }) == 0) ≡ false
  hint_row_there m p room due =
      let rows = last_of (not m.shows_hint) (not (m.hint_row == 0)) (m.physical_rows == 0) due in
      row_there (write m.term p).written_rows m.physical_rows room rows

  -- Once the session is presented in the native mode, over a terminal that takes every write whole,
  -- outputs none of which is a snapshot never fail, and are taken up in the model and written to the
  -- terminal byte for byte in their order, with nothing beside them but the entry of the normal buffer
  -- in front of the first, unless it is entered already, and the hint directly behind the first, if it
  -- has not been shown and there is a row for it; fewer than 65535 rows have been written then.
  pub apply_outputs-Told :
      (l : Transcript c) (m : Models e c) (p : Bytes) (ps : List Bytes)
      → m.mode ≡ mode_native
      → m.presentation ≡ native
      → Streams (p ∷ ps)
      → (write m.term p).written_rows + 1 < 2 ^ 16
      → Told l m
          (p ∷ ps)
          (given_for m.native_entered (hint_due m) m p ++ flatten ps)
          (apply_outputs m (p ∷ ps))
  apply_outputs-Told l m p ps mode at (stream, streams) room =
      let m' = passed l m.native_entered (hint_due m) m p in
      let given = given_for m.native_entered (hint_due m) m p in
      let s' =
        passed-Settled l m p m.native_entered (hint_due m) mode at refl refl
          (hint_row_there m p room) in
      let is = output_is l m p m.native_entered (hint_due m) mode at stream refl refl in
      let rest = Settled-run l m' ps s' streams in
      subst (Told l m (p ∷ ps) (given ++ flatten ps)) (sym (then_run m m' p ps is)) (record {
        outcome = rest.outcome;
        resized = rest.resized;
        shown =
            rest.shown
            ∙ ap (λ (t : Bytes). t ++ flatten ps) (passed_shown l m p m.native_entered (hint_due m))
            ∙ append_assoc (l.shown m.tty) given (flatten ps);
        term =
            rest.term
            ∙ ap (λ (t : Vt e). writes t ps) (passed_term l m p m.native_entered (hint_due m));
      })
