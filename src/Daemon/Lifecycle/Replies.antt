-- ===== src/Daemon/Lifecycle/Replies.antt =====
-- What the replies say.
use bgx.Base.{
  ◌≡◌, refl, sym, ap, ◌∙◌, subst, List, [], ◌∷◌, ◌++◌, Option, none, some, All, All-append,
}
use bgx.Daemon.Lifecycle.{
  WaitStatus, signaled, Proc, alive, exited, recorded, reaped, Handler, kill, wait, kill_asked,
  waiting, World, reap_as, reap, Step, dies, reaps, moves, Chance, exits, asks_wait, asks_kill,
  Reachable, begins, steps, chances,
}
use bgx.Daemon.Lifecycle.Fits.{
  is_ended, is_reaped, ended_then, Code, Fits, Consistent, Turned, Sound, turn-Sound, All-map,
  All-split, exit-Fits, record-Fits, reap-Fits, mono-Fits,
}

-- The command exits.
exit-Consistent :
    (w : World) (st : WaitStatus)
    → w.proc ≡ alive
    → Consistent w
    → Consistent (record w { proc = exited st })
exit-Consistent w st at c = record {
  ended_is = c.ended_is ∙ ap is_ended at;
  done_is = c.done_is ∙ ap is_reaped at;
  code_is = λ e. cc;
  fit =
      All-map (Fits w.proc w.doomed) (Fits (exited st) w.doomed) w.handlers
        (λ h f. exit-Fits st h w.doomed (subst (λ (p : Proc). Fits p w.doomed h) at f)) c.fit;
}

abbrev AllReap : World → Option World → Type 0
AllReap w none = Unit
AllReap w (some w') = Consistent w'

reap_as-Consistent : (p : Proc) (w : World) → w.proc ≡ p → Consistent w → AllReap w (reap_as p w)
reap_as-Consistent alive w at c = tt
reap_as-Consistent (reaped st) w at c = tt
reap_as-Consistent (exited st) w at c = record {
  ended_is = refl;
  done_is = c.done_is ∙ ap is_reaped at;
  code_is = λ e. refl;
  fit =
      All-map (Fits w.proc w.doomed) (Fits (recorded st) w.doomed) w.handlers
        (λ h f. record-Fits st h w.doomed (subst (λ (p : Proc). Fits p w.doomed h) at f)) c.fit;
}
reap_as-Consistent (recorded st) w at c =
    let code : Code (recorded st) w.exit_code =
      subst (λ (p : Proc). Code p w.exit_code) at (c.code_is (ap is_ended at)) in
    record {
      ended_is = c.ended_is ∙ ap is_ended at;
      done_is = refl;
      code_is = λ e. code;
      fit =
          All-map (Fits w.proc w.doomed) (Fits (reaped st) w.doomed) w.handlers
            (λ h f. reap-Fits st h w.doomed (subst (λ (p : Proc). Fits p w.doomed h) at f)) c.fit;
    }

moved-Consistent :
    (w w' : World) (before after : List Handler) (h h' : Handler)
    → Consistent w
    → w.handlers ≡ before ++ h ∷ after
    → Turned w w' h'
    → Consistent (record w' { handlers = before ++ h' ∷ after })
moved-Consistent w w' before after h h' c at t =
    let (fb, fh, fa) =
      All-split (Fits w.proc w.doomed) before after h
        (subst (All (Fits w.proc w.doomed)) at c.fit) in
    let keep : (k : Handler) → Fits w.proc w.doomed k → Fits w'.proc w'.doomed k = λ k f.
      subst (λ (p : Proc). Fits p w'.doomed k) (sym t.proc)
        (mono-Fits w.proc w.doomed w'.doomed k t.doomed f) in
    let P = Fits w.proc w.doomed in
    let Q = Fits w'.proc w'.doomed in
    record {
      ended_is = t.ended ∙ c.ended_is ∙ ap is_ended (sym t.proc);
      done_is = t.is_done ∙ c.done_is ∙ ap is_reaped (sym t.proc);
      code_is = λ e.
          subst (λ (p : Proc). Code p w'.exit_code) (sym t.proc)
            (subst (Code w.proc) (sym t.exit_code) (c.code_is (ap is_ended (sym t.proc) ∙ e)));
      fit = All-append Q before (h' ∷ after) (All-map P Q before keep fb) (
        subst (λ (p : Proc). Fits p w'.doomed h') (sym t.proc) t.fits,
        All-map P Q after keep fa,
      );
    }

asked-Consistent :
    (w : World) (h : Handler)
    → Fits w.proc w.doomed h
    → Consistent w
    → Consistent (record w { handlers = w.handlers ++ h ∷ [] })
asked-Consistent w h f c = record {
  ended_is = c.ended_is;
  done_is = c.done_is;
  code_is = c.code_is;
  fit = All-append (Fits w.proc w.doomed) w.handlers (h ∷ []) c.fit (f, tt);
}

pub Step-Consistent : {w w' : World} → Step w w' → Consistent w → Consistent w'
unfolding reap
Step-Consistent {w} (dies at doomed) c = exit-Consistent w (signaled 9) at c
Step-Consistent {w} (reaps w1 is) c = subst (AllReap w) is (reap_as-Consistent w.proc w refl c)
Step-Consistent {w} (moves choice before h after w1 h' at is) c =
    moved-Consistent w w1 before after h h' c at (
      subst (Sound w) is (
        turn-Sound choice w h (λ e. sym c.ended_is ∙ e) (λ e. ended_then w.proc (sym c.done_is ∙ e))
          (λ e. c.code_is (sym c.ended_is ∙ e))))

Chance-Consistent : {w w' : World} → Chance w w' → Consistent w → Consistent w'
Chance-Consistent {w} (exits st at) c = exit-Consistent w st at c
Chance-Consistent {w} asks_wait c = asked-Consistent w (wait waiting) tt c
Chance-Consistent {w} asks_kill c = asked-Consistent w (kill kill_asked) tt c

-- In every world that can be reached, whatever the command, the signals, the timer and the clients
-- do: `ended` and `done` stand exactly for a command that has been waited for, the exit code is the
-- conventional one of what it ended with, every "wait" and "kill" that has been answered with a code
-- has that code, a handler behind SIGKILL waits for a command that is sure to die or has exited, and
-- `kill` has returned without an error only where the command has been waited for.
pub Reachable-Consistent : {w : World} → Reachable w → Consistent w
Reachable-Consistent begins = record {
  ended_is = refl;
  done_is = refl;
  code_is = λ e. cc;
  fit = tt;
}
Reachable-Consistent (steps r s) = Step-Consistent s (Reachable-Consistent r)
Reachable-Consistent (chances r s) = Chance-Consistent s (Reachable-Consistent r)
