-- ===== src/Daemon/Retention/Tests.antt =====
-- Retention on a concrete directory.
use bgx.Base.Int.{pos}
use bgx.Base.{ℕ, ◌≡◌, refl, true, false, List, [], ◌∷◌, Bytes, codes, some, none}
use bgx.Daemon.Retention.{
  Entry, Record, namespace, prune_retention, pruned_records, records_of, remove_all, sort_newest,
  insert_newest, active_sessions,
}
use bgx.Daemon.Retention.Newest.{Kept, pruned_records-Kept}

abbrev records : List Record
records =
    record { base = codes "a"; ended = 5 }
    ∷ record { base = codes "b"; ended = 9 }
    ∷ record { base = codes "c"; ended = 7 }
    ∷ []

pruned_records-Kept_example : Kept 2 records (pruned_records 2 records)
pruned_records-Kept_example = pruned_records-Kept 2 records

abbrev file : Bytes → Entry
file name = record { name = name; is_dir = false }

-- The time of a record in this test is the first letter of its name.
abbrev first_letter : Bytes → ℕ
first_letter [] = 0
first_letter (c ∷ _) = c

pruned :
    prune_retention first_letter
      (λ name. true)
      (pos 1)
      (file (codes "a.json")
        ∷ file (codes "a.history")
        ∷ file (codes "b.json")
        ∷ file (codes "b.history")
        ∷ [])
    ≡ (file (codes "b.json") ∷ file (codes "b.history") ∷ [], 0)
unfolding prune_retention pruned_records records_of remove_all sort_newest insert_newest
pruned = refl

namespaces : (namespace (codes "job/1") ≡ codes "job") × (namespace (codes "job") ≡ [])
unfolding namespace
namespaces = (refl, refl)

active :
    active_sessions (codes "job/1") (
      record { id = some (codes "job/1"); alive = true }
      ∷ record { id = some (codes "job/2"); alive = true }
      ∷ record { id = some (codes "job/3"); alive = false }
      ∷ record { id = none; alive = true }
      ∷ [])
    ≡ 1
unfolding active_sessions namespace
active = refl
