-- ===== src/Client/Start.antt =====
-- start.go, with waitForSession and the lock of client.go: starting sessions in one namespace. What
-- goes on at the same time are the starting processes, of which one holds the lock, and the daemons;
-- each reads and changes the sockets and records in steps of its own. A daemon that answers is seen to
-- answer, and a starting process does not die while it holds the lock.
pub mod Steps
pub mod Held
pub mod Holds
pub mod Within
pub mod Answer
pub mod Exceeds
pub mod Overlaps
mod Tests
use bgx.Base.{
  ℕ, zero, suc, ◌+◌, ◌≡◌, ◌≤◌, Bool, true, false, not, ◌&&◌, ◌||◌, List, [], ◌∷◌, ◌++◌, Option,
  none, some, Bytes, length, leb, ◌==◌, if◌then◌else◌,
}
use bgx.Base.Int.{ℤ, pos, negsuc}
use bgx.Daemon.Retention.{same_bytes}

-- `defaultConcurrency`.
abbrev pub default_concurrency : ℕ
default_concurrency = 3

-- `limit`: a concurrency that is not positive is the default.
abbrev pub limit_of : ℤ → ℕ
limit_of (pos zero) = default_concurrency
limit_of (pos (suc n)) = suc n
limit_of (negsuc n) = default_concurrency

pub record Daemon : Type 0 where
  pub pid : ℕ
  pub id : Bytes

-- The arguments of `Start` that are looked at under the lock.
pub record Start : Type 0 where
  pub id : Bytes
  pub concurrency : ℤ
  pub overwrite_id : Bool

-- What `Start` returns; `observed` is what the wait has found of the session, with which `Start`
-- succeeds unless it names an error.
pub data Outcome : Type 0 where
  observed session_running session_exists not_replaced spawn_failed exited_early gave_up : Outcome
  concurrency_limit : ℕ → Outcome

-- What `Start` does next; behind `spawn` with the process that it waits for.
pub data Phase : Type 0 where
  check_running check_record replace_record replace_history check_limit spawn : Phase
  wait_live wait_record wait_exit recheck_live recheck_record : ℕ → Phase
  leaving : Outcome → Phase

-- `booting` are the daemons that may answer yet, `live` those that answer, `ending` those that have
-- closed their listener and not persisted their record yet.
pub record World : Type 0 where
  pub booting : List Daemon
  pub live : List Daemon
  pub ending : List Daemon
  pub records : List Bytes
  pub next_pid : ℕ
  pub holder : Option (Start × Phase)
  pub finished : List (Bytes × Outcome)

abbrev pub no_world : World
no_world = record {
  booting = [];
  live = [];
  ending = [];
  records = [];
  next_pid = 0;
  holder = none;
  finished = [];
}

-- What a step meets: an operation that fails, a canceled context, a deadline that has passed, and an
-- exit of the process that has been seen.
pub record Chance : Type 0 where
  pub fails : Bool
  pub canceled : Bool
  pub late : Bool
  pub exited : Bool

abbrev pub has_id : Bytes → List Daemon → Bool
has_id id [] = false
has_id id (d ∷ ds) = same_bytes d.id id || has_id id ds

abbrev pub has_pid : ℕ → List Daemon → Bool
has_pid pid [] = false
has_pid pid (d ∷ ds) = d.pid == pid || has_pid pid ds

abbrev pub recorded : Bytes → List Bytes → Bool
recorded id [] = false
recorded id (r ∷ rs) = same_bytes r id || recorded id rs

-- `os.Remove` of the record.
abbrev pub without : Bytes → List Bytes → List Bytes
without id [] = []
without id (r ∷ rs) = let rest = without id rs in if same_bytes r id then rest else r ∷ rest

abbrev pub at : World → Start → Phase → World
at w s ph = record w { holder = some (s, ph) }

abbrev pub has_exited : Chance → ℕ → World → Bool
has_exited ch pid w =
    ch.exited && not (has_pid pid w.booting || has_pid pid w.live || has_pid pid w.ending)

-- `waitForSession` with `Start` behind it: a round of its loop in three steps, and what it does once
-- the process has exited.
abbrev pub await_live : Chance → Start → ℕ → World → World
await_live ch s pid w =
    if ch.canceled
    then at w s (leaving gave_up)
    else if has_id s.id w.live
    then at w s (leaving observed)
    else at w s (wait_record pid)

abbrev pub await_record : Start → ℕ → World → World
await_record s pid w =
    if recorded s.id w.records then at w s (leaving observed) else at w s (wait_exit pid)

abbrev pub await_exit : Chance → Start → ℕ → World → World
await_exit ch s pid w =
    if has_exited ch pid w
    then at w s (recheck_live pid)
    else if ch.late
    then at w s (leaving gave_up)
    else at w s (wait_live pid)

abbrev pub look_again : Start → ℕ → World → World
look_again s pid w =
    if has_id s.id w.live then at w s (leaving observed) else at w s (recheck_record pid)

abbrev pub recheck_ended_record : Chance → Start → ℕ → World → World
recheck_ended_record ch s pid w =
    if recorded s.id w.records
    then at w s (leaving observed)
    else if ch.late
    then at w s (leaving exited_early)
    else at w s (recheck_record pid)

-- A step of `Start` under the lock.
unfoldable pub turn : Chance → Start → Phase → World → World
turn ch s check_running w =
    if has_id s.id w.live then at w s (leaving session_running) else at w s check_record
turn ch s check_record w =
    if recorded s.id w.records
    then (if s.overwrite_id then at w s replace_record else at w s (leaving session_exists))
    else at w s check_limit
turn ch s replace_record w =
    if ch.fails
    then at w s (leaving not_replaced)
    else at (record w { records = without s.id w.records }) s replace_history
turn ch s replace_history w = if ch.fails then at w s (leaving not_replaced) else at w s check_limit
turn ch s check_limit w =
    if leb (limit_of s.concurrency) (length w.live)
    then at w s (leaving (concurrency_limit (length w.live)))
    else at w s spawn
turn ch s spawn w =
    if ch.fails
    then at w s (leaving spawn_failed)
    else at
        (record w {
          booting = record { pid = w.next_pid; id = s.id } ∷ w.booting;
          next_pid = suc w.next_pid;
        })
        s (wait_live w.next_pid)
turn ch s (wait_live pid) w = await_live ch s pid w
turn ch s (wait_record pid) w = await_record s pid w
turn ch s (wait_exit pid) w = await_exit ch s pid w
turn ch s (recheck_live pid) w = look_again s pid w
turn ch s (recheck_record pid) w = recheck_ended_record ch s pid w
turn ch s (leaving o) w = record w { holder = none; finished = (s.id, o) ∷ w.finished }
