-- ===== src/Daemon/Retention/Newest.antt =====
-- The newest records are kept.
use mathlib.Core.List.{Perm}
use mathlib.Core.List.Perm
use bgx.Base.Int.{ℤ}
use bgx.Base.{
  ℕ, zero, suc, ◌+◌, ◌-◌, ◌≤◌, ◌<◌, ◌≡◌, refl, ap, ◌∙◌, ◌⊎◌, inl, inr, List, [], ◌∷◌, ◌++◌, ltb,
  leb, tests, length, take, drop, take-append-drop, length-take, append-nil, All, arith, Bool-cases,
  min,
}
use bgx.Daemon.Retention.{
  Record, insert_newest, sort_newest, pruned_records, keep_or_default, retention_keep,
}

abbrev Below : ℕ → List Record → Type 0
Below ended = All (λ r. r.ended ≤ ended)

-- Each record is at least as new as those behind it.
abbrev Newest : List Record → Type 0
Newest [] = Unit
Newest (r ∷ rs) = Below r.ended rs × Newest rs

Below-trans : (m n : ℕ) (rs : List Record) → m ≤ n → Below m rs → Below n rs
Below-trans m n [] le h = tt
Below-trans m n (r ∷ rs) le (first, h) = (omega (arith, first), Below-trans m n rs le h)

insert_newest-Below :
    (n : ℕ) (r : Record) (rs : List Record)
    → r.ended ≤ n
    → Below n rs
    → Below n (insert_newest r rs)
unfolding insert_newest
insert_newest-Below n r [] le h = (le, tt)
insert_newest-Below n r (s ∷ rs) le (first, h) = elim (Bool-cases (ltb s.ended r.ended)) [
  | inl newer ↦ rw newer (le, (first, h))
  | inr older ↦ rw older (first, insert_newest-Below n r rs le h)
]

insert_newest-Newest : (r : Record) (rs : List Record) → Newest rs → Newest (insert_newest r rs)
unfolding insert_newest
insert_newest-Newest r [] h = (tt, tt)
insert_newest-Newest r (s ∷ rs) (below, h) = elim (Bool-cases (ltb s.ended r.ended)) [
  | inl newer ↦
      let le : s.ended ≤ r.ended = omega tests in
      rw newer ((le, Below-trans s.ended r.ended rs le below), (below, h))
  | inr older ↦
      rw older (insert_newest-Below s.ended r rs (ground arith) below, insert_newest-Newest r rs h)
]

sort_newest-Newest : (rs : List Record) → Newest (sort_newest rs)
unfolding sort_newest
sort_newest-Newest [] = tt
sort_newest-Newest (r ∷ rs) = insert_newest-Newest r (sort_newest rs) (sort_newest-Newest rs)

insert_newest-perm : (r : Record) (rs : List Record) → Perm (insert_newest r rs) (r ∷ rs)
unfolding insert_newest
insert_newest-perm r [] = Perm.rfl
insert_newest-perm r (s ∷ rs) = elim (Bool-cases (ltb s.ended r.ended)) [
  | inl newer ↦ rw newer Perm.rfl
  | inr older ↦ rw older (Perm.trans (Perm.cons s (insert_newest-perm r rs)) (Perm.swap r s rs))
]

sort_newest-perm : (rs : List Record) → Perm (sort_newest rs) rs
unfolding sort_newest
sort_newest-perm [] = Perm.rfl
sort_newest-perm (r ∷ rs) =
    Perm.trans (insert_newest-perm r (sort_newest rs)) (Perm.cons r (sort_newest-perm rs))

length-insert_newest :
    (r : Record) (rs : List Record) → length (insert_newest r rs) ≡ suc (length rs)
unfolding insert_newest
length-insert_newest r [] = refl
length-insert_newest r (s ∷ rs) = elim (Bool-cases (ltb s.ended r.ended)) [
  | inl newer ↦ rw newer refl
  | inr older ↦ rw older (ap suc (length-insert_newest r rs))
]

length-sort_newest : (rs : List Record) → length (sort_newest rs) ≡ length rs
unfolding sort_newest
length-sort_newest [] = refl
length-sort_newest (r ∷ rs) =
    length-insert_newest r (sort_newest rs) ∙ ap suc (length-sort_newest rs)

Below-drop : (n k : ℕ) (rs : List Record) → Below n rs → Below n (drop k rs)
Below-drop n zero rs h = h
Below-drop n (suc k) [] h = tt
Below-drop n (suc k) (r ∷ rs) (first, h) = Below-drop n k rs h

-- In an ordered list every record at the front is at least as new as every one behind.
Newest-take :
    (k : ℕ) (rs : List Record) → Newest rs → All (λ r. Below r.ended (drop k rs)) (take k rs)
Newest-take zero rs h = tt
Newest-take (suc k) [] h = tt
Newest-take (suc k) (r ∷ rs) (below, h) = (Below-drop r.ended k rs below, Newest-take k rs h)

-- Which records are kept beside those that are removed.
pub record Kept (keep : ℕ) (records removed : List Record) : Type 0 where
  pub kept : List Record
  pub perm : Perm (kept ++ removed) records
  pub size : length kept ≡ min keep (length records)
  pub newer : All (λ r. Below r.ended removed) kept

nothing_newer : (rs : List Record) → All (λ r. Below r.ended []) rs
nothing_newer [] = tt
nothing_newer (r ∷ rs) = (tt, nothing_newer rs)

-- `pruneRetention` removes all but the newest `keep` records: what is left beside them is a part of
-- the records, as many as there are up to `keep`, and each of it is at least as new as each removed.
pub pruned_records-Kept :
    (keep : ℕ) (records : List Record) → Kept keep records (pruned_records keep records)
unfolding pruned_records
pruned_records-Kept keep records = elim (Bool-cases (leb (length records) keep)) [
  | inl few ↦ rw few (record {
    kept = records;
    perm = rw append-nil Perm.rfl;
    size = omega tests;
    newer = nothing_newer records;
  })
  | inr many ↦
      let sorted = sort_newest records in
      rw many (record {
        kept = take keep sorted;
        perm = rw take-append-drop (sort_newest-perm records);
        size = length-take keep sorted ∙ ap (min keep) (length-sort_newest records);
        newer = Newest-take keep sorted (sort_newest-Newest records);
      })
]

-- The records kept at the end of a session are as many as its count leaves beside the running
-- sessions, and one where these fill it.
pub retention_keep_lem :
    (retention_count : ℤ) (active : ℕ)
    → let count = keep_or_default retention_count in
      let keep = retention_keep retention_count active in
      ((active < count) × (keep + active ≡ count)) ⊎ ((count ≤ active) × (keep ≡ 1))
unfolding retention_keep
retention_keep_lem retention_count active =
    let count = keep_or_default retention_count in
    elim (Bool-cases (ltb (count - active) 1)) [
      | inl filled ↦ rw filled (inr (omega tests, refl))
      | inr room ↦ rw room (inl (ground arith, ground arith))
    ]
