-- ===== src/Daemon/Lifecycle/Tests.antt =====
-- A kill that the command outlives until SIGKILL.
use bgx.Base.{◌≤◌, refl, true, [], ◌∷◌, All}
use bgx.Base.Int.{pos}
use bgx.Daemon.Lifecycle.{
  signaled, exited, recorded, reaped, Handler, kill, kill_asked, hup_due, hup_sent, kill_due,
  kill_sent, kill_returned, replied, World, fresh_world, reap, dies, reaps, moves, Reachable,
  begins, chances, asks_kill,
}
use bgx.Daemon.Lifecycle.Fits.{Consistent}
use bgx.Daemon.Lifecycle.Replies.{Reachable-Consistent}
use bgx.Daemon.Lifecycle.Measure.{steps_left}
use bgx.Daemon.Lifecycle.Progress.{Run-Reachable, Run, stays, goes, Halted, AtRest, Reachable-halts}

abbrev with_handler : World → Handler → World
with_handler w h = record w { handlers = h ∷ [] }

abbrev asked : World
asked = with_handler fresh_world (kill kill_asked)

asked-Reachable : Reachable asked
asked-Reachable = chances begins asks_kill

abbrev killing : World
killing = record fresh_world { killed = true }

abbrev doomed_world : World
doomed_world = record killing { doomed = true }

abbrev dead : World
dead = record doomed_world { proc = exited (signaled 9) }

abbrev noted : World
noted = record dead { proc = recorded (signaled 9); ended = true; exit_code = pos 137 }

abbrev over : World
over = record noted { proc = reaped (signaled 9); is_done = true }

killed-Run : Run 9 asked (with_handler over (kill (replied (pos 137))))
unfolding reap
killed-Run =
    goes
      (moves true [] (kill kill_asked) [] (with_handler killing (kill kill_asked)) (kill hup_due)
        refl refl)
      (goes
        (moves true [] (kill hup_due) [] (with_handler killing (kill hup_due)) (kill hup_sent) refl
          refl)
        (goes
          (moves true [] (kill hup_sent) [] (with_handler killing (kill hup_sent)) (kill kill_due)
            refl refl)
          (goes
            (moves true [] (kill kill_due) [] (with_handler doomed_world (kill kill_due))
              (kill kill_sent) refl refl)
            (goes {w = with_handler doomed_world (kill kill_sent)} (dies refl refl) (
              goes (reaps (with_handler noted (kill kill_sent)) refl) (
                goes (reaps (with_handler over (kill kill_sent)) refl) (
                  goes
                    (moves true [] (kill kill_sent) [] (with_handler over (kill kill_sent))
                      (kill kill_returned) refl refl)
                    (goes
                      (moves true [] (kill kill_returned) []
                        (with_handler over (kill kill_returned)) (kill (replied (pos 137))) refl
                        refl)
                      stays))))))))

Reachable-halts_example :
    (9 ≤ steps_left asked)
    × (Halted (with_handler over (kill (replied (pos 137))))
        → All
            (AtRest (with_handler over (kill (replied (pos 137)))))
            (kill (replied (pos 137)) ∷ []))
Reachable-halts_example = Reachable-halts asked-Reachable killed-Run

Reachable-Consistent_example : Consistent (with_handler over (kill (replied (pos 137))))
Reachable-Consistent_example = Reachable-Consistent (Run-Reachable asked-Reachable killed-Run)
