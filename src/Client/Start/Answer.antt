-- ===== src/Client/Start/Answer.antt =====
-- The daemons that were left to boot.
use bgx.Base.{
  ℕ, zero, suc, ◌+◌, ◌≡◌, ◌<◌, refl, sym, ap, ◌∙◌, subst, false, inl, inr, List, [], ◌∷◌, ◌++◌,
  Bytes, length, All, arith, Bool-cases,
}
use bgx.Daemon.Retention.{same_bytes}
use bgx.Client.Sessions.Order.{same_bytes-eq}
use bgx.Client.Start.{Daemon, World, has_id}
use bgx.Client.Start.Steps.{listens, Allowance, outside, Reachable, steps}

-- The id of `n` letters.
abbrev pub id_of : ℕ → Bytes
id_of zero = []
id_of (suc n) = b'a' ∷ id_of n

-- Daemons of different ids.
abbrev pub daemons_of : (ℕ → ℕ) → ℕ → List Daemon
daemons_of pid zero = []
daemons_of pid (suc n) = record { pid = pid n; id = id_of (suc n) } ∷ daemons_of pid n

length-daemons_of : (pid : ℕ → ℕ) (n : ℕ) → length (daemons_of pid n) ≡ n
length-daemons_of pid zero = refl
length-daemons_of pid (suc n) = ap suc (length-daemons_of pid n)

pub length-id_of : (n : ℕ) → length (id_of n) ≡ n
length-id_of zero = refl
length-id_of (suc n) = ap suc (length-id_of n)

-- Each in turn has another id than those that answer.
abbrev Fresh : List Daemon → List Daemon → Type 0
Fresh [] live = Unit
Fresh (d ∷ l) live = (has_id d.id live ≡ false) × Fresh l (d ∷ live)

longer_ids :
    (m n : ℕ) (live : List Daemon)
    → m < n
    → All (λ (d : Daemon). n < length d.id) live
    → All (λ (d : Daemon). m < length d.id) live
longer_ids m n [] le h = tt
longer_ids m n (d ∷ live) le (first, h) = (omega arith, longer_ids m n live le h)

not_longer :
    (id : Bytes) (live : List Daemon)
    → All (λ (d : Daemon). length id < length d.id) live
    → has_id id live ≡ false
not_longer id [] h = refl
not_longer id (d ∷ live) (first, h) = elim (Bool-cases (same_bytes d.id id)) [
  | inl same ↦ let n = ap length (same_bytes-eq d.id id same) in absurd (omega arith)
  | inr other ↦ rw (other, not_longer id live h) refl
]

Fresh-daemons_of :
    (pid : ℕ → ℕ) (n : ℕ) (live : List Daemon)
    → All (λ (d : Daemon). n < length d.id) live
    → Fresh (daemons_of pid n) live
Fresh-daemons_of pid zero live h = tt
Fresh-daemons_of pid (suc n) live h =
    let size = length-id_of (suc n) in
    (
      not_longer (id_of (suc n)) live
          (subst (λ (k : ℕ). All (λ (d : Daemon). k < length d.id) live) (sym size) h),
      Fresh-daemons_of pid n (record { pid = pid n; id = id_of (suc n) } ∷ live)
          (omega arith, longer_ids n (suc n) live (omega arith) h),
    )

-- All that boot come to answer.
all_listen :
    (Allowed : Allowance) (l : List Daemon) (w : World)
    → w.booting ≡ l
    → Fresh l w.live
    → Reachable Allowed 1 w
    → (w' : World) × Reachable Allowed 1 w' × (length w'.live ≡ length l + length w.live)
all_listen Allowed [] w eq h r = (w, r, omega arith)
all_listen Allowed (d ∷ l) w eq (fresh, h) r =
    let (w', r', n) =
      all_listen Allowed l (record w { booting = [] ++ l; live = d ∷ w.live }) refl h
        (steps r (outside (listens w [] l d eq fresh))) in
    (w', r', n ∙ omega arith)

pub all_answer :
    (Allowed : Allowance) (pid : ℕ → ℕ) (n : ℕ) (w : World)
    → w.booting ≡ daemons_of pid n
    → w.live ≡ []
    → Reachable Allowed 1 w
    → (w' : World) × Reachable Allowed 1 w' × (length w'.live ≡ n)
all_answer Allowed pid n w booting_eq live_eq r =
    let fresh = subst (Fresh (daemons_of pid n)) (sym live_eq) (Fresh-daemons_of pid n [] tt) in
    let (w', r', same) = all_listen Allowed (daemons_of pid n) w booting_eq fresh r in
    let none_yet = ap length live_eq in
    let count = length-daemons_of pid n in (w', r', same ∙ omega arith)
