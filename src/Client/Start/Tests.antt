-- ===== src/Client/Start/Tests.antt =====
-- Runs of starts.
use bgx.Base.{◌+◌, ◌≡◌, ◌≤◌, refl, false, [], ◌∷◌, none, codes, length, arith}
use bgx.Base.Int.{pos}
use bgx.Client.Start.{
  Daemon, Start, World, check_running, check_record, check_limit, spawn, wait_live, wait_record,
  wait_exit, leaving, observed, session_running, session_exists, concurrency_limit, Chance,
  no_world, turn, at,
}
use bgx.Client.Start.Steps.{listens, outside, locks, goes, Reachable, begins, steps}
use bgx.Client.Start.Holds.{Patient}
use bgx.Client.Start.Within.{Reachable-within}
use bgx.Client.Start.Overlaps.{Persistent, Reachable-overlaps}
use bgx.Client.Start.Exceeds.{Anything, Reachable-exceeds}

abbrev shell : Start
shell = record { id = codes "sh"; concurrency = pos 1; overwrite_id = false }

abbrev smooth : Chance
smooth = record { fails = false; canceled = false; late = false; exited = false }

abbrev shell_daemon : Daemon
shell_daemon = record { pid = 0; id = codes "sh" }

abbrev one_live : World
one_live = record {
  booting = [];
  live = shell_daemon ∷ [];
  ending = [];
  records = [];
  next_pid = 1;
  holder = none;
  finished = (codes "sh", observed) ∷ [];
}

-- The daemon comes to answer in the second round of the wait.
one_start : Reachable Patient 1 one_live
unfolding turn
one_start =
    let r1 = steps begins (locks no_world shell refl (omega arith)) in
    let r2 = steps r1 (goes _ shell check_running smooth refl refl) in
    let r3 = steps r2 (goes _ shell check_record smooth refl tt) in
    let r4 = steps r3 (goes _ shell check_limit smooth refl tt) in
    let r5 = steps r4 (goes _ shell spawn smooth refl tt) in
    let r6 = steps r5 (goes _ shell (wait_live 0) smooth refl refl) in
    let r7 = steps r6 (goes _ shell (wait_record 0) smooth refl tt) in
    let r8 = steps r7 (outside (listens _ [] [] shell_daemon refl refl)) in
    let r9 = steps r8 (goes _ shell (wait_exit 0) smooth refl refl) in
    let r10 = steps r9 (goes _ shell (wait_live 0) smooth refl refl) in
    steps r10 (goes _ shell (leaving observed) smooth refl tt)

-- Another id has no room, and the same one is running.
no_room : turn smooth shell check_limit one_live ≡ at one_live shell (leaving (concurrency_limit 1))
unfolding turn
no_room = refl

still_running :
    turn smooth shell check_running one_live ≡ at one_live shell (leaving session_running)
unfolding turn
still_running = refl

-- An ended session keeps its id.
kept_id :
    turn smooth shell check_record (record no_world { records = codes "sh" ∷ [] })
    ≡ at (record no_world { records = codes "sh" ∷ [] }) shell (leaving session_exists)
unfolding turn
kept_id = refl

Reachable-within_example : length one_live.booting + length one_live.live ≤ 1
Reachable-within_example = Reachable-within 1 one_live one_start

Reachable-exceeds_example : (w : World) × Reachable Anything 1 w × (length w.live ≡ 3)
Reachable-exceeds_example = Reachable-exceeds 3

Reachable-overlaps_example : (w : World) × Reachable Persistent 1 w × (length w.live ≡ 2)
Reachable-overlaps_example = Reachable-overlaps 2
