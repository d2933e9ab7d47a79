-- ===== src/Daemon/Lifecycle/Measure.antt =====
-- Every step that is sure to happen brings the end nearer.
use bgx.Base.{
  ℕ, ◌+◌, ◌<◌, ◌≡◌, refl, subst, Bool, true, false, ◌&&◌, inl, inr, List, [], ◌∷◌, ◌++◌, Option,
  none, some, Bool-cases, arith,
}
use bgx.Daemon.Lifecycle.{
  Proc, alive, exited, recorded, reaped, Handler, kill, wait, kill_asked, hup_due, hup_sent,
  kill_due, kill, wait, kill_sent, kill_returned, waiting, refused, replied, answered, World,
  reap_as, reap, turn, Step, dies, reaps, moves,
}

-- How many steps are left at most.
abbrev pub proc_steps : Proc → ℕ
proc_steps alive = 3
proc_steps (exited st) = 2
proc_steps (recorded st) = 1
proc_steps (reaped st) = 0

abbrev pub handler_steps : Handler → ℕ
handler_steps (kill kill_asked) = 6
handler_steps (kill hup_due) = 5
handler_steps (kill hup_sent) = 4
handler_steps (kill kill_due) = 3
handler_steps (kill kill_sent) = 2
handler_steps (kill kill_returned) = 1
handler_steps (wait waiting) = 1
handler_steps (kill refused) = 0
handler_steps (kill (replied c)) = 0
handler_steps (wait (answered c)) = 0

abbrev pub all_steps : List Handler → ℕ
all_steps [] = 0
all_steps (h ∷ hs) = handler_steps h + all_steps hs

abbrev pub steps_left : World → ℕ
steps_left w = proc_steps w.proc + all_steps w.handlers

all_steps-append :
    (before after : List Handler) (h : Handler)
    → all_steps (before ++ h ∷ after) ≡ handler_steps h + all_steps (before ++ after)
all_steps-append [] after h = refl
all_steps-append (x ∷ before) after h = omega (arith, all_steps-append before after h)

-- A turn goes on by a step at least, and leaves the command.
abbrev Forward : World → Handler → Option (World × Handler) → Type 0
Forward w h none = Unit
Forward w h (some (w', h')) = (w'.proc ≡ w.proc) × (handler_steps h' < handler_steps h)

turn-Forward : (choice : Bool) (w : World) (h : Handler) → Forward w h (turn choice w h)
turn-Forward choice w (kill kill_asked) = elim (Bool-cases w.ended) [
  | inl over ↦ rw over (refl, omega arith)
  | inr runs ↦ rw runs (refl, omega arith)
]
turn-Forward true w (kill hup_due) = (refl, omega arith)
turn-Forward false w (kill hup_due) = (refl, omega arith)
turn-Forward choice w (kill hup_sent) = elim (Bool-cases (w.is_done && choice)) [
  | inl over ↦ rw over (refl, omega arith)
  | inr runs ↦ rw runs (refl, omega arith)
]
turn-Forward true w (kill kill_due) = (refl, omega arith)
turn-Forward false w (kill kill_due) = (refl, omega arith)
turn-Forward choice w (kill kill_sent) = elim (Bool-cases w.is_done) [
  | inl over ↦ rw over (refl, omega arith)
  | inr runs ↦ rw runs tt
]
turn-Forward choice w (kill kill_returned) = elim (Bool-cases w.ended) [
  | inl over ↦ rw over (refl, omega arith)
  | inr runs ↦ rw runs tt
]
turn-Forward choice w (wait waiting) = elim (Bool-cases w.ended) [
  | inl over ↦ rw over (refl, omega arith)
  | inr runs ↦ rw runs tt
]
turn-Forward choice w (kill refused) = tt
turn-Forward choice w (kill (replied c)) = tt
turn-Forward choice w (wait (answered c)) = tt

abbrev Less : World → Option World → Type 0
Less w none = Unit
Less w (some w') = steps_left w' < steps_left w

reap-Less : (p : Proc) (w : World) → w.proc ≡ p → Less w (reap_as p w)
reap-Less alive w at = tt
reap-Less (reaped st) w at = tt
reap-Less (exited st) w at = rw at (omega arith)
reap-Less (recorded st) w at = rw at (omega arith)

pub Step-lt : {w w' : World} → Step w w' → steps_left w' < steps_left w
unfolding reap
Step-lt {w} (dies at doomed) = rw at (omega arith)
Step-lt {w} (reaps w1 is) = subst (Less w) is (reap-Less w.proc w refl)
Step-lt {w} (moves choice before h after w1 h' at is) =
    let (proc, less) = subst (Forward w h) is (turn-Forward choice w h) in
    rw (proc, at)
      (omega (arith, less, all_steps-append before after h, all_steps-append before after h'))
