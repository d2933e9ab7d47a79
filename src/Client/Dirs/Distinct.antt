-- ===== src/Client/Dirs/Distinct.antt =====
-- No directory is a candidate twice.
use bgx.Base.{
  ◌≡◌, refl, Bool, true, false, ◌||◌, inl, inr, List, [], ◌∷◌, ◌++◌, Bytes, codes, ◌==◌, arith,
  Bool-cases,
}
use bgx.Daemon.Retention.{same_bytes}
use bgx.Client.Dirs.{
  DirCandidate, Env, seen, add, add_under, add_common_dir_candidates, dir_candidates,
  state_dir_candidates, or_empty,
}

same_bytes_comm : (p q : Bytes) → same_bytes p q ≡ same_bytes q p
same_bytes_comm [] [] = refl
same_bytes_comm [] (d ∷ q) = refl
same_bytes_comm (c ∷ p) [] = refl
same_bytes_comm (c ∷ p) (d ∷ q) =
    let same : (c == d) ≡ (d == c) = ground arith in rw (same, same_bytes_comm p q) refl

or_false : (x : Bool) → (x || false) ≡ x
or_false true = refl
or_false false = refl

or_assoc : (x y z : Bool) → (x || (y || z)) ≡ ((x || y) || z)
or_assoc true y z = refl
or_assoc false y z = refl

-- The paths are pairwise different.
abbrev pub IsDistinct : List DirCandidate → Type 0
IsDistinct [] = Unit
IsDistinct (c ∷ cs) = (seen c.path cs ≡ false) × IsDistinct cs

seen-append :
    (path : Bytes) (cs : List DirCandidate) (d : DirCandidate)
    → seen path (cs ++ d ∷ []) ≡ (seen path cs || same_bytes d.path path)
seen-append path [] d = or_false (same_bytes d.path path)
seen-append path (c ∷ cs) d =
    rw (seen-append path cs d)
      (or_assoc (same_bytes c.path path) (seen path cs) (same_bytes d.path path))

append-IsDistinct :
    (cs : List DirCandidate) (d : DirCandidate)
    → seen d.path cs ≡ false
    → IsDistinct cs
    → IsDistinct (cs ++ d ∷ [])
append-IsDistinct [] d h i = (refl, tt)
append-IsDistinct (c ∷ cs) d h (first, i) = elim (Bool-cases (same_bytes c.path d.path)) [
  | inl same ↦ cc (rw same at h)
  | inr other ↦ (
    rw (seen-append c.path cs d, first, same_bytes_comm d.path c.path, other) refl,
    append-IsDistinct cs d (rw other at h) i,
  )
]

add-IsDistinct :
    (out : List DirCandidate) (name path : Bytes) → IsDistinct out → IsDistinct (add out name path)
unfolding add
add-IsDistinct out name [] h = h
add-IsDistinct out name (c ∷ path) h = elim (Bool-cases (seen (c ∷ path) out)) [
  | inl known ↦ rw known h
  | inr new ↦ rw new (append-IsDistinct out _ new h)
]

add_under-IsDistinct :
    (env : Env) (out : List DirCandidate) (name dir sub : Bytes)
    → IsDistinct out
    → IsDistinct (add_under env out name dir sub)
add_under-IsDistinct env out name [] sub h = h
add_under-IsDistinct env out name (c ∷ dir) sub h =
    add-IsDistinct out name (env.join (c ∷ dir) sub) h

add_common_dir_candidates-IsDistinct :
    (env : Env) (out : List DirCandidate)
    → IsDistinct out
    → IsDistinct (add_common_dir_candidates env out)
unfolding add_common_dir_candidates
add_common_dir_candidates-IsDistinct env out h = add_under-IsDistinct env _ _ (or_empty env.cwd) _ (
    add-IsDistinct _ _ (env.join env.temp_dir (codes "bgx"))
      (add_under-IsDistinct env out _ (or_empty env.home) _ h))

-- In every environment the candidates for sockets, and those for retained sessions, have pairwise
-- different paths.
pub dir_candidates-IsDistinct :
    (env : Env) → IsDistinct (dir_candidates env) × IsDistinct (state_dir_candidates env)
unfolding dir_candidates state_dir_candidates
dir_candidates-IsDistinct env = (
  add_common_dir_candidates-IsDistinct env _ (
      add_under-IsDistinct env _ _ env.default_runtime_dir _
        (add_under-IsDistinct env [] _ env.xdg_runtime_dir _ tt)),
  add_common_dir_candidates-IsDistinct env _ (
      add_under-IsDistinct env _ _ env.default_state_home _
        (add_under-IsDistinct env [] _ env.xdg_state_home _ tt)),
)
