-- ===== src/Client/Start/Holds.antt =====
-- What holds in each phase of a start.
use bgx.Base.{
  ℕ, ◌≡◌, ◌≤◌, refl, true, false, inl, inr, List, [], ◌∷◌, Option, none, some, Bytes, length, All,
  arith, ◌==◌, Bool-cases,
}
use bgx.Daemon.Retention.{same_bytes}
use bgx.Client.Start.{
  Daemon, Start, World, Phase, check_running, check_record, replace_record, replace_history,
  check_limit, spawn, wait_live, wait_record, wait_exit, recheck_live, recheck_record, leaving,
  limit_of, has_id, has_pid, recorded, without,
}
use bgx.Client.Start.Steps.{Outside, Allowance}
use bgx.Client.Start.Held.{
  Fits, Away, NotRecorded, Free, Fits-Outside, Away-Outside, NotRecorded-Outside, Free-Outside,
  Own-Outside,
}

-- What holds while a daemon is waited for.
abbrev pub Waits : ℕ → Bytes → ℕ → World → Type 0
Waits most id pid w = Fits most 1 0 w × All (λ (d : Daemon). d.pid ≡ pid) w.booting × Free id w

-- What holds in each phase of a start of the id.
abbrev pub Holds : ℕ → Bytes → Phase → World → Type 0
Holds most id check_running w = Fits most 0 0 w
Holds most id check_record w = Fits most 0 0 w × Away id w
Holds most id replace_record w = Fits most 0 0 w × Away id w
Holds most id replace_history w = Fits most 0 0 w × Away id w × NotRecorded id w
Holds most id check_limit w = Fits most 0 0 w × Away id w × NotRecorded id w
Holds most id spawn w = Fits most 0 1 w × Away id w × NotRecorded id w
Holds most id (wait_live pid) w = Waits most id pid w
Holds most id (wait_record pid) w = Waits most id pid w
Holds most id (wait_exit pid) w = Waits most id pid w
Holds most id (recheck_live pid) w = Fits most 0 0 w
Holds most id (recheck_record pid) w = Fits most 0 0 w
Holds most id (leaving o) w = Fits most 0 0 w

Fits-Away-NotRecorded :
    (most room : ℕ) (id : Bytes) {w w' : World}
    → Outside w w'
    → Fits most 0 room w × Away id w × NotRecorded id w
    → Fits most 0 room w' × Away id w' × NotRecorded id w'
Fits-Away-NotRecorded most room id o (fits, away, free) = (
  Fits-Outside most 0 room o fits,
  Away-Outside id o fits.0 away,
  NotRecorded-Outside id o fits.0 away free,
)

Waits-Outside :
    (most pid : ℕ) (id : Bytes) {w w' : World}
    → Outside w w'
    → Waits most id pid w
    → Waits most id pid w'
Waits-Outside most pid id o (fits, own, free) =
    (Fits-Outside most 1 0 o fits, Own-Outside pid o own, Free-Outside id o fits.0 free)

pub Holds-Outside :
    (most : ℕ) (id : Bytes) (ph : Phase) {w w' : World}
    → Outside w w'
    → Holds most id ph w
    → Holds most id ph w'
Holds-Outside most id check_running o h = Fits-Outside most 0 0 o h
Holds-Outside most id check_record o (fits, away) =
    (Fits-Outside most 0 0 o fits, Away-Outside id o fits.0 away)
Holds-Outside most id replace_record o (fits, away) =
    (Fits-Outside most 0 0 o fits, Away-Outside id o fits.0 away)
Holds-Outside most id replace_history o h = Fits-Away-NotRecorded most 0 id o h
Holds-Outside most id check_limit o h = Fits-Away-NotRecorded most 0 id o h
Holds-Outside most id spawn o h = Fits-Away-NotRecorded most 1 id o h
Holds-Outside most id (wait_live pid) o h = Waits-Outside most pid id o h
Holds-Outside most id (wait_record pid) o h = Waits-Outside most pid id o h
Holds-Outside most id (wait_exit pid) o h = Waits-Outside most pid id o h
Holds-Outside most id (recheck_live pid) o h = Fits-Outside most 0 0 o h
Holds-Outside most id (recheck_record pid) o h = Fits-Outside most 0 0 o h
Holds-Outside most id (leaving x) o h = Fits-Outside most 0 0 o h

-- No wait is given up, and none starts under an id whose session has closed its listener and not
-- persisted its record yet.
abbrev pub Patient : Allowance
Patient w s check_running ch = has_id s.id w.ending ≡ false
Patient w s (wait_live pid) ch = ch.canceled ≡ false
Patient w s (wait_exit pid) ch = ch.late ≡ false
Patient w s ph ch = Unit

-- What holds of the holder of the lock, if there is one.
abbrev pub Sound : ℕ → Option (Start × Phase) → World → Type 0
Sound most none w = Fits most 0 0 w
Sound most (some (s, ph)) w = Holds most s.id ph w × (limit_of s.concurrency ≤ most)

pub All-has_id :
    (id : Bytes) (ds : List Daemon)
    → has_id id ds ≡ false
    → All (λ (d : Daemon). same_bytes d.id id ≡ false) ds
All-has_id id [] h = tt
All-has_id id (d ∷ ds) h = elim (Bool-cases (same_bytes d.id id)) [
  | inl same ↦ let h' : true ≡ false = rw same at h in cc
  | inr other ↦ (other, All-has_id id ds (rw other at h))
]

-- An id that all others differ from is not there.
pub not_has_id :
    (id : Bytes) (ds : List Daemon)
    → All (λ (d : Daemon). same_bytes d.id id ≡ false) ds
    → has_id id ds ≡ false
not_has_id id [] h = refl
not_has_id id (d ∷ ds) (other, h) = rw (other, not_has_id id ds h) refl

pub All-recorded :
    (id : Bytes) (rs : List Bytes)
    → recorded id rs ≡ false
    → All (λ (r : Bytes). same_bytes r id ≡ false) rs
All-recorded id [] h = tt
All-recorded id (r ∷ rs) h = elim (Bool-cases (same_bytes r id)) [
  | inl same ↦ let h' : true ≡ false = rw same at h in cc
  | inr other ↦ (other, All-recorded id rs (rw other at h))
]

pub not_recorded :
    (id : Bytes) (rs : List Bytes)
    → All (λ (r : Bytes). same_bytes r id ≡ false) rs
    → recorded id rs ≡ false
not_recorded id [] h = refl
not_recorded id (r ∷ rs) (other, h) = rw (other, not_recorded id rs h) refl

pub All-without :
    (id : Bytes) (rs : List Bytes) → All (λ (r : Bytes). same_bytes r id ≡ false) (without id rs)
All-without id [] = tt
All-without id (r ∷ rs) = elim (Bool-cases (same_bytes r id)) [
  | inl same ↦ rw same (All-without id rs)
  | inr other ↦ rw other (other, All-without id rs)
]

-- Without its own daemon nothing boots.
pub none_boots :
    (pid : ℕ) (ds : List Daemon)
    → All (λ (d : Daemon). d.pid ≡ pid) ds
    → has_pid pid ds ≡ false
    → length ds ≡ 0
none_boots pid [] own h = refl
none_boots pid (d ∷ ds) (same, own) h =
    let here : (d.pid == pid) ≡ true = ground arith in let h' : true ≡ false = rw here at h in cc
