-- ===== src/Daemon/Retention.antt =====
-- daemon/retention.go, and of daemon/daemon.go the budget: which records of ended sessions are kept.
pub mod Newest
mod Tests
use bgx.Base.Int.{ℤ, pos, negsuc}
use bgx.Base.{
  ℕ, zero, suc, ◌+◌, ◌-◌, Bool, true, false, ◌&&◌, ◌||◌, List, [], ◌∷◌, ◌++◌, Option, none, some,
  Bytes, codes, ltb, leb, ◌==◌, if◌then◌else◌, length, take, drop,
}

abbrev pub default_retention_count : ℕ
default_retention_count = 10

-- What precedes the first "/", and nothing for an id without one.
abbrev before_slash : Bytes → Option Bytes
before_slash [] = none
before_slash (c ∷ id) =
    let rest = before_slash id in
    if c == b'/' then some [] else elim rest [ none ↦ none | some ns ↦ some (c ∷ ns) ]

unfoldable pub namespace : Bytes → Bytes
namespace id = elim (before_slash id) [ none ↦ [] | some ns ↦ ns ]

abbrev pub same_bytes : Bytes → Bytes → Bool
same_bytes [] [] = true
same_bytes (c ∷ p) (d ∷ q) = c == d && same_bytes p q
same_bytes _ _ = false

-- `strings.HasSuffix` and `strings.TrimSuffix` in one.
abbrev pub strip_suffix : Bytes → Bytes → Option Bytes
strip_suffix suffix [] = if same_bytes [] suffix then some [] else none
strip_suffix suffix (c ∷ s) =
    let rest = strip_suffix suffix s in
    if same_bytes (c ∷ s) suffix
    then some []
    else elim rest [ none ↦ none | some base ↦ some (c ∷ base) ]

-- A file or directory in the namespace's directory.
pub record Entry : Type 0 where
  pub name : Bytes
  pub is_dir : Bool

-- `ended` is the time as a number.
pub record Record : Type 0 where
  pub base : Bytes
  pub ended : ℕ

-- The records in the directory; `ended_at` reads a record's time.
unfoldable pub records_of : (Bytes → ℕ) → List Entry → List Record
records_of ended_at [] = []
records_of ended_at (e ∷ es) =
    let rest = records_of ended_at es in
    if e.is_dir then rest else elim (strip_suffix (codes ".json") e.name) [
      | none ↦ rest
      | some base ↦ record { base = base; ended = ended_at e.name } ∷ rest
    ]

-- `sort.Slice` by `After`, the newest first; the order of equal times is not specified.
unfoldable pub insert_newest : Record → List Record → List Record
insert_newest r [] = r ∷ []
insert_newest r (s ∷ rs) =
    let later = insert_newest r rs in if ltb s.ended r.ended then r ∷ s ∷ rs else s ∷ later

unfoldable pub sort_newest : List Record → List Record
sort_newest [] = []
sort_newest (r ∷ rs) = insert_newest r (sort_newest rs)

-- The records that `pruneRetention` removes.
unfoldable pub pruned_records : ℕ → List Record → List Record
pruned_records keep records =
    if leb (length records) keep then [] else drop keep (sort_newest records)

abbrev pub keep_or_default : ℤ → ℕ
keep_or_default (pos zero) = default_retention_count
keep_or_default (pos (suc n)) = suc n
keep_or_default (negsuc n) = default_retention_count

abbrev pub without_name : Bytes → List Entry → List Entry
without_name name [] = []
without_name name (e ∷ es) =
    let rest = without_name name es in if same_bytes e.name name then rest else e ∷ rest

-- `os.Remove`, for each of the records both files; `removes` tells whether the system removes a file.
unfoldable pub remove_all : (Bytes → Bool) → List Record → List Entry → ℕ → List Entry × ℕ
remove_all removes [] dir errors = (dir, errors)
remove_all removes (r ∷ rs) dir errors =
    let json = r.base ++ codes ".json" in
    let history = r.base ++ codes ".history" in
    let dir' = if removes json then without_name json dir else dir in
    let dir'' = if removes history then without_name history dir' else dir' in
    remove_all removes rs dir''
      ((if removes json then errors else errors + 1) + (if removes history then 0 else 1))

-- `pruneRetention` of a directory that is there: what is left of it, and the number of errors.
unfoldable pub prune_retention : (Bytes → ℕ) → (Bytes → Bool) → ℤ → List Entry → List Entry × ℕ
prune_retention ended_at removes keep dir =
    remove_all removes (pruned_records (keep_or_default keep) (records_of ended_at dir)) dir 0

-- `persist`: the records to keep, beside `active` running sessions.
unfoldable pub retention_keep : ℤ → ℕ → ℕ
retention_keep retention_count active =
    let keep = keep_or_default retention_count - active in if ltb keep 1 then 1 else keep

-- A socket in the directory of sockets, with whether its id unescapes, and whether it is alive.
pub record Socket : Type 0 where
  pub id : Option Bytes
  pub alive : Bool

-- `activeNamespaceSessions`, on the files that end in ".sock".
unfoldable pub active_sessions : Bytes → List Socket → ℕ
active_sessions id [] = 0
active_sessions id (s ∷ ss) =
    let rest = active_sessions id ss in
    elim s.id [
      | none ↦ rest
      | some other ↦
          if same_bytes other id
          then rest
          else if same_bytes (namespace other) (namespace id)
          then (if s.alive then rest + 1 else rest)
          else rest
    ]
