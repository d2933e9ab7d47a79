-- ===== src/Client/Start/Exceeds.antt =====
-- What a start that gives up leaves behind.
use bgx.Base.{ℕ, zero, suc, ◌≡◌, refl, true, false, List, [], ◌∷◌, Bytes, length, arith, none}
use bgx.Client.Start.Answer.{id_of, daemons_of, all_answer}
use bgx.Base.Int.{pos}
use bgx.Client.Start.{
  Start, World, check_running, check_record, check_limit, spawn, wait_live, leaving, Outcome,
  gave_up, Chance, turn,
}
use bgx.Client.Start.Steps.{Allowance, locks, goes, Reachable, begins, steps}

abbrev pub Anything : Allowance
Anything w s ph ch = Unit

-- A start with a limit of one.
abbrev start_of : ℕ → Start
start_of n = record { id = id_of (suc n); concurrency = pos 1; overwrite_id = false }

abbrev given_up : ℕ → List (Bytes × Outcome)
given_up zero = []
given_up (suc n) = (id_of (suc n), gave_up) ∷ given_up n

abbrev smooth : Chance
smooth = record { fails = false; canceled = false; late = false; exited = false }

abbrev canceled : Chance
canceled = record { fails = false; canceled = true; late = false; exited = false }

-- Behind `n` starts that have given up.
abbrev waiting_for : ℕ → World
waiting_for n = record {
  booting = daemons_of (λ k. k) n;
  live = [];
  ending = [];
  records = [];
  next_pid = n;
  holder = none;
  finished = given_up n;
}

another :
    (n : ℕ) → Reachable Anything 1 (waiting_for n) → Reachable Anything 1 (waiting_for (suc n))
unfolding turn
another n r =
    let s = start_of n in
    let r1 = steps r (locks (waiting_for n) s refl (omega arith)) in
    let r2 = steps r1 (goes _ s check_running smooth refl tt) in
    let r3 = steps r2 (goes _ s check_record smooth refl tt) in
    let r4 = steps r3 (goes _ s check_limit smooth refl tt) in
    let r5 = steps r4 (goes _ s spawn smooth refl tt) in
    let r6 = steps r5 (goes _ s (wait_live n) canceled refl tt) in
    steps r6 (goes _ s (leaving gave_up) smooth refl tt)

all_waiting : (n : ℕ) → Reachable Anything 1 (waiting_for n)
all_waiting zero = begins
all_waiting (suc n) = another n (all_waiting n)

-- If waits may be given up, then starts with a limit of one come to any number of sessions that answer
-- at a time.
pub Reachable-exceeds : (n : ℕ) → (w : World) × Reachable Anything 1 w × (length w.live ≡ n)
Reachable-exceeds n = all_answer Anything (λ k. k) n (waiting_for n) refl refl (all_waiting n)
