-- ===== src/Daemon/Lifecycle/Progress.antt =====
-- Handlers come to their end.
use bgx.Base.{
  append_assoc, ℕ, ◌+◌, ◌≤◌, ◌≡◌, refl, sym, ap, ◌∙◌, true, false, ◌&&◌, ◌⊎◌, inl, inr, List, [],
  ◌∷◌, ◌++◌, some, All, Bool-cases, arith,
}
use bgx.Daemon.Lifecycle.{
  steps, Proc, alive, exited, recorded, reaped, Handler, kill, wait, kill_asked, hup_due, hup_sent,
  kill_due, kill, wait, kill_sent, kill_returned, waiting, refused, replied, answered, World,
  reap_as, reap, turn, Step, dies, reaps, moves, Reachable,
}
use bgx.Daemon.Lifecycle.Fits.{Consistent, Fits, is_reaped, ended_then}
use bgx.Daemon.Lifecycle.Replies.{Reachable-Consistent, Step-Consistent}
use bgx.Daemon.Lifecycle.Measure.{steps_left, Step-lt}

pub data Run : ℕ → World → World → Type 0 where
  stays : {w : World} → Run 0 w w
  goes : {n : ℕ} {w w' w'' : World} → Step w w' → Run n w' w'' → Run (n + 1) w w''

pub Run-Reachable : {n : ℕ} {w w' : World} → Reachable w → Run n w w' → Reachable w'
Run-Reachable r stays = r
Run-Reachable r (goes s run) = Run-Reachable (steps r s) run

Run-le : {n : ℕ} {w w' : World} → Run n w w' → n ≤ steps_left w
Run-le stays = omega arith
Run-le (goes s r) = omega (arith, Step-lt s, Run-le r)

Run-Consistent : {n : ℕ} {w w' : World} → Run n w w' → Consistent w → Consistent w'
Run-Consistent stays c = c
Run-Consistent (goes s r) c = Run-Consistent r (Step-Consistent s c)

-- Nothing that is sure to happen is left.
abbrev pub Halted : World → Type 0
Halted w = (w' : World) → Step w w' → ⊥

-- The handler has replied, or it is a "wait", and no "kill", for a command that lives and that SIGKILL
-- was not sent to.
abbrev pub AtRest : World → Handler → Type 0
AtRest w (kill refused) = Unit
AtRest w (kill (replied c)) = Unit
AtRest w (wait (answered c)) = Unit
AtRest w (wait waiting) = (w.proc ≡ alive) × (w.doomed ≡ false)
AtRest w _ = ⊥

-- Where the command is then.
AtEnd : World → Type 0
AtEnd w = ((w.proc ≡ alive) × (w.doomed ≡ false)) ⊎ (is_reaped w.proc ≡ true)

Halted-reap : (w : World) (w' : World) → Halted w → reap w ≡ some w' → ⊥
Halted-reap w w' halted is = halted w' (reaps w' is)

Halted-AtEnd : (p : Proc) (w : World) → w.proc ≡ p → Halted w → AtEnd w
unfolding AtEnd reap
Halted-AtEnd alive w at halted = elim (Bool-cases w.doomed) [
  | inl doomed ↦ absurd (halted _ (dies at doomed))
  | inr lives ↦ inl (at, lives)
]
Halted-AtEnd (exited st) w at halted =
    absurd (Halted-reap w _ halted (ap (λ (p : Proc). reap_as p w) at))
Halted-AtEnd (recorded st) w at halted =
    absurd (Halted-reap w _ halted (ap (λ (p : Proc). reap_as p w) at))
Halted-AtEnd (reaped st) w at halted = inr (ap is_reaped at)

Halted-turn :
    (w : World) (before after : List Handler) (h : Handler) (x : World × Handler)
    → Halted w
    → w.handlers ≡ before ++ h ∷ after
    → turn true w h ≡ some x
    → ⊥
Halted-turn w before after h x halted at is = halted _ (moves true before h after x.0 x.1 at is)

module _ (w : World) (halted : Halted w) (c : Consistent w) (at_end : AtEnd w) where
  rest_at :
      (before after : List Handler) (h : Handler)
      → w.handlers ≡ before ++ h ∷ after
      → Fits w.proc w.doomed h
      → AtRest w h
  unfolding AtEnd
  rest_at before after (kill kill_asked) at f = elim (Bool-cases w.ended) [
    | inl over ↦ absurd (
        Halted-turn w before after (kill kill_asked) (w, (kill kill_returned)) halted at
          (rw over refl))
    | inr runs ↦ absurd (
        Halted-turn w before after (kill kill_asked) (record w { killed = true }, (kill hup_due))
          halted at (rw runs refl))
  ]
  rest_at before after (kill hup_due) at f =
      absurd (Halted-turn w before after (kill hup_due) _ halted at refl)
  rest_at before after (kill hup_sent) at f = elim (Bool-cases (w.is_done && true)) [
    | inl over ↦ absurd (
        Halted-turn w before after (kill hup_sent) (w, (kill kill_returned)) halted at
          (rw over refl))
    | inr runs ↦
        absurd
          (Halted-turn w before after (kill hup_sent) (w, (kill kill_due)) halted at (rw runs refl))
  ]
  rest_at before after (kill kill_due) at f =
      absurd (Halted-turn w before after (kill kill_due) _ halted at refl)
  rest_at before after (kill kill_sent) at f = elim at_end [
    | inl (alive_is, lives) ↦ cc (rw (alive_is, lives) at f)
    | inr over ↦ absurd (
        Halted-turn w before after (kill kill_sent) (w, (kill kill_returned)) halted at
          (rw (c.done_is ∙ over) refl))
  ]
  rest_at before after (kill kill_returned) at over = absurd (
      Halted-turn w before after (kill kill_returned) (w, kill (replied w.exit_code)) halted at
        (rw (c.ended_is ∙ over) refl))
  rest_at before after (wait waiting) at f = elim at_end [
    | inl lives ↦ lives
    | inr over ↦ absurd (
        Halted-turn w before after (wait waiting) (w, wait (answered w.exit_code)) halted at
          (rw (c.ended_is ∙ ended_then w.proc over) refl))
  ]
  rest_at before after (kill refused) at f = tt
  rest_at before after (kill (replied code)) at f = tt
  rest_at before after (wait (answered code)) at f = tt

  All-AtRest :
      (before hs : List Handler)
      → w.handlers ≡ before ++ hs
      → All (Fits w.proc w.doomed) hs
      → All (AtRest w) hs
  All-AtRest before [] at f = tt
  All-AtRest before (h ∷ hs) at (f, fs) = (
    rest_at before hs h at f,
    All-AtRest (before ++ h ∷ []) hs (at ∙ sym (append_assoc before (h ∷ []) hs)) fs,
  )

-- From every world that can be reached, what is sure to happen happens in at most `steps_left` steps,
-- and where none is left every "kill" has replied, with the exit code or the error of a signal, and
-- every "wait" too, unless the command lives and SIGKILL was not sent to it.
pub Reachable-halts :
    {n : ℕ} {w w' : World}
    → Reachable w
    → Run n w w'
    → (n ≤ steps_left w) × (Halted w' → All (AtRest w') w'.handlers)
Reachable-halts {w' = w'} r run =
    let c = Run-Consistent run (Reachable-Consistent r) in
    (
      Run-le run,
      λ halted.
          All-AtRest w' halted c (Halted-AtEnd w'.proc w' refl halted) [] w'.handlers refl c.fit,
    )
