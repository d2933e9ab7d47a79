-- ===== src/Daemon/Lifecycle.antt =====
-- daemon/daemon.go: the end of the command, and the handlers of "wait" and "kill" that wait for it. A
-- handler's turn is a function; `none` is a turn that it has to wait for.
pub mod Fits
pub mod Replies
pub mod Measure
pub mod Progress
mod Tests
use bgx.Base.{
  ℕ, ◌+◌, ◌≡◌, Bool, true, false, ◌&&◌, List, [], ◌∷◌, ◌++◌, Option, none, some, if◌then◌else◌,
}
use bgx.Base.Int.{ℤ, pos, negsuc}

-- The error of `cmd.Wait`: none, an ExitError with its code or the signal, or another.
pub data WaitStatus : Type 0 where
  succeeded other_error : WaitStatus
  exit_error : ℤ → WaitStatus
  signaled : ℕ → WaitStatus

abbrev pub conventional_exit_code : WaitStatus → ℤ
conventional_exit_code succeeded = pos 0
conventional_exit_code (signaled s) = pos (128 + s)
conventional_exit_code (exit_error code) = code
conventional_exit_code other_error = negsuc 0

-- The command: `exited` before `cmd.Wait` has returned, `recorded` behind the broadcast of `reap`,
-- `reaped` once `done` is closed.
pub data Proc : Type 0 where
  alive : Proc
  exited recorded reaped : WaitStatus → Proc

-- Where a handler of "kill" stands: in `kill`, behind it, where it waits for the exit code, or done.
pub data Killing : Type 0 where
  kill_asked hup_due hup_sent kill_due kill_sent kill_returned refused : Killing
  replied : ℤ → Killing

-- Where a handler of "wait" stands.
pub data Waiting : Type 0 where
  waiting : Waiting
  answered : ℤ → Waiting

pub data Handler : Type 0 where
  kill : Killing → Handler
  wait : Waiting → Handler

-- `doomed` is a command that SIGKILL has been sent to while it lived.
pub record World : Type 0 where
  pub proc : Proc
  pub doomed : Bool
  pub ended : Bool
  pub killed : Bool
  pub exit_code : ℤ
  pub is_done : Bool
  pub handlers : List Handler

abbrev pub is_alive : Proc → Bool
is_alive alive = true
is_alive _ = false

abbrev pub fresh_world : World
fresh_world = record {
  proc = alive;
  doomed = false;
  ended = false;
  killed = false;
  exit_code = pos 0;
  is_done = false;
  handlers = [];
}

-- `reap`: what follows `cmd.Wait`, and `close(s.done)`.
abbrev pub reap_as : Proc → World → Option World
reap_as (exited st) w =
    some (record w { proc = recorded st; ended = true; exit_code = conventional_exit_code st })
reap_as (recorded st) w = some (record w { proc = reaped st; is_done = true })
reap_as _ w = none

unfoldable pub reap : World → Option World
reap w = reap_as w.proc w

-- A turn of a handler of "kill": `kill`, then `waitForExit`. `choice` tells that a signal is sent
-- without an error but ESRCH, or that `done` is taken where the timer has fired too.
abbrev pub kill_turn : Bool → World → Killing → Option (World × Killing)
kill_turn choice w kill_asked =
    if w.ended then some (w, kill_returned) else some (record w { killed = true }, hup_due)
kill_turn choice w hup_due = if choice then some (w, hup_sent) else some (w, refused)
kill_turn choice w hup_sent =
    if w.is_done && choice then some (w, kill_returned) else some (w, kill_due)
kill_turn choice w kill_due =
    if choice
    then some (record w { doomed = if is_alive w.proc then true else w.doomed }, kill_sent)
    else some (w, refused)
kill_turn choice w kill_sent = if w.is_done then some (w, kill_returned) else none
kill_turn choice w kill_returned = if w.ended then some (w, replied w.exit_code) else none
kill_turn choice w refused = none
kill_turn choice w (replied code) = none

-- A turn of a handler of "wait": `waitForExit`.
abbrev pub wait_turn : World → Waiting → Option (World × Waiting)
wait_turn w waiting = if w.ended then some (w, answered w.exit_code) else none
wait_turn w (answered code) = none

abbrev pub as_handler : {A : Type 0} → (A → Handler) → Option (World × A) → Option (World × Handler)
as_handler f none = none
as_handler f (some (w, h)) = some (w, f h)

abbrev pub turn : Bool → World → Handler → Option (World × Handler)
turn choice w (kill k) = as_handler kill (kill_turn choice w k)
turn choice w (wait k) = as_handler wait (wait_turn w k)

-- What is sure to happen where nothing else does: a command that SIGKILL was sent to dies, `reap` goes
-- on, and a handler takes a turn.
pub data Step (w : World) : World → Type 0 where
  dies : w.proc ≡ alive → w.doomed ≡ true → Step w (record w { proc = exited (signaled 9) })
  reaps : (w' : World) → reap w ≡ some w' → Step w w'
  moves :
      (choice : Bool) (before : List Handler) (h : Handler) (after : List Handler) (w' : World)
      (h' : Handler)
      → w.handlers ≡ before ++ h ∷ after
      → turn choice w h ≡ some (w', h')
      → Step w (record w' { handlers = before ++ h' ∷ after })

-- What may happen: the command exits by itself, a client asks.
pub data Chance (w : World) : World → Type 0 where
  exits : (st : WaitStatus) → w.proc ≡ alive → Chance w (record w { proc = exited st })
  asks_wait : Chance w (record w { handlers = w.handlers ++ wait waiting ∷ [] })
  asks_kill : Chance w (record w { handlers = w.handlers ++ kill kill_asked ∷ [] })

pub data Reachable : World → Type 0 where
  begins : Reachable fresh_world
  steps : {w w' : World} → Reachable w → Step w w' → Reachable w'
  chances : {w w' : World} → Reachable w → Chance w w' → Reachable w'
