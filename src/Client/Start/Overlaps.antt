-- ===== src/Client/Start/Overlaps.antt =====
-- What a start leaves behind that takes an older record of its id for its own.
use bgx.Base.{
  ◌<◌, Bool-cases, inl, inr, ℕ, zero, suc, ◌≡◌, refl, ap, subst, some, Bool, if◌then◌else◌, true,
  false, List, [], ◌∷◌, Bytes, length, arith, none,
}
use bgx.Base.Int.{pos}
use bgx.Client.Start.{
  Daemon, Start, World, has_id, recorded, at, check_running, check_record, replace_record,
  session_exists, check_limit, spawn, wait_live, wait_record, wait_exit, leaving, Outcome, observed,
  Chance, turn,
}
use bgx.Client.Start.Steps.{
  listens, closes, persists, Allowance, outside, locks, goes, Reachable, begins, steps,
}
use bgx.Daemon.Retention.{same_bytes}
use bgx.Client.Sessions.Order.{same_bytes-eq, same_bytes_refl}
use bgx.Client.Start.Answer.{id_of, length-id_of, daemons_of, all_answer}

-- No wait is canceled or times out.
abbrev pub Persistent : Allowance
Persistent w s (wait_live pid) ch = ch.canceled ≡ false
Persistent w s (wait_exit pid) ch = ch.late ≡ false
Persistent w s ph ch = Unit

-- A start with a limit of one.
abbrev start_of : ℕ → Start
start_of n = record { id = id_of (suc n); concurrency = pos 1; overwrite_id = false }

abbrev smooth : Chance
smooth = record { fails = false; canceled = false; late = false; exited = false }

id_here : (n pid : ℕ) → has_id (id_of n) (record { pid = pid; id = id_of n } ∷ []) ≡ true
id_here n pid = rw (same_bytes_refl (id_of n)) refl

record_here : (n : ℕ) (rs : List Bytes) → recorded (id_of n) (id_of n ∷ rs) ≡ true
record_here n rs = rw (same_bytes_refl (id_of n)) refl

live_turn :
    (s : Start) (pid : ℕ) (w : World)
    → has_id s.id w.live ≡ true
    → turn smooth s (wait_live pid) w ≡ at w s (leaving observed)
unfolding turn
live_turn s pid w there =
    ap (λ (b : Bool). if b then at w s (leaving observed) else at w s (wait_record pid)) there

record_turn :
    (s : Start) (pid : ℕ) (w : World)
    → recorded s.id w.records ≡ true
    → turn smooth s (wait_record pid) w ≡ at w s (leaving observed)
unfolding turn
record_turn s pid w there =
    ap (λ (b : Bool). if b then at w s (leaving observed) else at w s (wait_exit pid)) there

first_turn :
    (s : Start) (w : World)
    → recorded s.id w.records ≡ false
    → turn smooth s check_record w ≡ at w s check_limit
unfolding turn
first_turn s w absent =
    ap
      (λ (b : Bool).
        if b
        then (if s.overwrite_id then at w s replace_record else at w s (leaving session_exists))
        else at w s check_limit)
      absent

finds_no_record :
    (s : Start) {w : World}
    → Reachable Persistent 1 w
    → w.holder ≡ some (s, check_record)
    → recorded s.id w.records ≡ false
    → Reachable Persistent 1 (at w s check_limit)
finds_no_record s {w} r held absent =
    subst (Reachable Persistent 1) (first_turn s w absent)
      (steps r (goes w s check_record smooth held tt))

-- A wait that finds a session or a record of its id.
sees_session :
    (s : Start) (pid : ℕ) {w : World}
    → Reachable Persistent 1 w
    → w.holder ≡ some (s, wait_live pid)
    → has_id s.id w.live ≡ true
    → Reachable Persistent 1 (at w s (leaving observed))
sees_session s pid {w} r held there =
    let result : turn smooth s (wait_live pid) w ≡ at w s (leaving observed) =
      live_turn s pid w there in
    subst (Reachable Persistent 1) result (steps r (goes w s (wait_live pid) smooth held refl))

sees_record :
    (s : Start) (pid : ℕ) {w : World}
    → Reachable Persistent 1 w
    → w.holder ≡ some (s, wait_record pid)
    → recorded s.id w.records ≡ true
    → Reachable Persistent 1 (at w s (leaving observed))
sees_record s pid {w} r held there =
    let result : turn smooth s (wait_record pid) w ≡ at w s (leaving observed) =
      record_turn s pid w there in
    subst (Reachable Persistent 1) result (steps r (goes w s (wait_record pid) smooth held tt))

-- Each round starts two daemons.
abbrev next_of : ℕ → ℕ
next_of zero = zero
next_of (suc n) = suc (suc (next_of n))

abbrev first_of : ℕ → Daemon
first_of n = record { pid = next_of n; id = id_of (suc n) }

abbrev pid_of : ℕ → ℕ
pid_of n = suc (next_of n)

abbrev observed_of : ℕ → List (Bytes × Outcome)
observed_of zero = []
observed_of (suc n) = (id_of (suc n), observed) ∷ (id_of (suc n), observed) ∷ observed_of n

-- The records of the first sessions, all kept.
abbrev records_of : ℕ → List Bytes
records_of zero = []
records_of (suc n) = id_of (suc n) ∷ records_of n

other_length : (m n : ℕ) → n < m → same_bytes (id_of n) (id_of m) ≡ false
other_length m n lt = elim (Bool-cases (same_bytes (id_of n) (id_of m))) [
  | inl same ↦
      let sizes = ap length (same_bytes-eq (id_of n) (id_of m) same) in
      absurd (omega (arith, length-id_of n, length-id_of m))
  | inr other ↦ other
]

no_record_yet : (m n : ℕ) → n < m → recorded (id_of m) (records_of n) ≡ false
no_record_yet m zero lt = refl
no_record_yet m (suc n) lt = rw (other_length m (suc n) lt, no_record_yet m n (omega arith)) refl

-- Behind `n` rounds.
abbrev behind : ℕ → World
behind n = record {
  booting = daemons_of pid_of n;
  live = [];
  ending = [];
  records = records_of n;
  next_pid = next_of n;
  holder = none;
  finished = observed_of n;
}

-- Where the first session of a round has closed its listener.
abbrev between : ℕ → World
between n = record (behind n) {
  ending = first_of n ∷ [];
  next_pid = suc (next_of n);
  finished = (id_of (suc n), observed) ∷ observed_of n;
}

first_ends : (n : ℕ) → Reachable Persistent 1 (behind n) → Reachable Persistent 1 (between n)
unfolding turn
first_ends n r =
    let s = start_of n in
    let r1 = steps r (locks (behind n) s refl (omega arith)) in
    let r2 = steps r1 (goes _ s check_running smooth refl tt) in
    let r3 = finds_no_record s r2 refl (no_record_yet (suc n) n (omega arith)) in
    let r4 = steps r3 (goes _ s check_limit smooth refl tt) in
    let r5 = steps r4 (goes _ s spawn smooth refl tt) in
    let r6 = steps r5 (outside (listens _ [] (daemons_of pid_of n) (first_of n) refl refl)) in
    let r7 = sees_session s (next_of n) r6 refl (id_here (suc n) (next_of n)) in
    let r8 = steps r7 (goes _ s (leaving observed) smooth refl tt) in
    steps r8 (outside (closes _ [] [] (first_of n) refl))

second_left : (n : ℕ) → Reachable Persistent 1 (between n) → Reachable Persistent 1 (behind (suc n))
unfolding turn
second_left n r =
    let s = start_of n in
    let r1 = steps r (locks (between n) s refl (omega arith)) in
    let r2 = steps r1 (goes _ s check_running smooth refl tt) in
    let r3 = finds_no_record s r2 refl (no_record_yet (suc n) n (omega arith)) in
    let r4 = steps r3 (goes _ s check_limit smooth refl tt) in
    let r5 = steps r4 (goes _ s spawn smooth refl tt) in
    let r6 = steps r5 (goes _ s (wait_live (suc (next_of n))) smooth refl refl) in
    let r7 = steps r6 (outside (persists _ [] [] (first_of n) refl)) in
    let r8 = sees_record s (suc (next_of n)) r7 refl (record_here (suc n) (records_of n)) in
    steps r8 (goes _ s (leaving observed) smooth refl tt)

all_left : (n : ℕ) → Reachable Persistent 1 (behind n)
all_left zero = begins
all_left (suc n) = second_left n (first_ends n (all_left n))

-- Though no wait is given up, starts with a limit of one come to any number of sessions that
-- answer at a time, if a start may look its id up while a session of that id has closed its listener
-- and not persisted its record yet.
pub Reachable-overlaps : (n : ℕ) → (w : World) × Reachable Persistent 1 w × (length w.live ≡ n)
Reachable-overlaps n = all_answer Persistent pid_of n (behind n) refl refl (all_left n)
