-- ===== src/Client/Dirs.antt =====
-- dirs.go: the directories for sockets and for retained sessions, each the first usable one of a chain.
pub mod Choice
pub mod Distinct
mod Tests
use bgx.Base.{
  ℕ, zero, suc, Bool, true, false, ◌||◌, List, [], ◌∷◌, ◌++◌, Option, none, some, Bytes, codes,
  if◌then◌else◌, length, ◌==◌, flatten,
}
use bgx.Daemon.Retention.{same_bytes}

pub record DirCandidate : Type 0 where
  pub name : Bytes
  pub path : Bytes

-- nil as an error is none.
pub record DirResolution : Type 0 where
  pub base : Bytes
  pub notice : Bytes
  pub err : Option Bytes

-- What the process finds: the environment, the libraries' directories, and `filepath.Join`.
pub record Env : Type 0 where
  pub xdg_runtime_dir : Bytes
  pub default_runtime_dir : Bytes
  pub xdg_state_home : Bytes
  pub default_state_home : Bytes
  pub home : Option Bytes
  pub temp_dir : Bytes
  pub cwd : Option Bytes
  pub join : Bytes → Bytes → Bytes

abbrev pub seen : Bytes → List DirCandidate → Bool
seen path [] = false
seen path (c ∷ cs) = same_bytes c.path path || seen path cs

-- `add`, whose map `seen` holds the paths of `out`.
unfoldable pub add : List DirCandidate → Bytes → Bytes → List DirCandidate
add out name [] = out
add out name (c ∷ path) =
    if seen (c ∷ path) out then out else out ++ record { name = name; path = c ∷ path } ∷ []

-- Adds a directory under `dir`, where that is not empty.
abbrev pub add_under : Env → List DirCandidate → Bytes → Bytes → Bytes → List DirCandidate
add_under env out name [] sub = out
add_under env out name (c ∷ dir) sub = add out name (env.join (c ∷ dir) sub)

abbrev pub or_empty : Option Bytes → Bytes
or_empty none = []
or_empty (some p) = p

unfoldable pub add_common_dir_candidates : Env → List DirCandidate → List DirCandidate
add_common_dir_candidates env out =
    let out1 = add_under env out (codes "$HOME/.bgx") (or_empty env.home) (codes ".bgx") in
    let out2 = add out1 (codes "/tmp/bgx") (env.join env.temp_dir (codes "bgx")) in
    add_under env out2 (codes "./.bgx") (or_empty env.cwd) (codes ".bgx")

unfoldable pub dir_candidates : Env → List DirCandidate
dir_candidates env =
    let out1 = add_under env [] (codes "$XDG_RUNTIME_DIR") env.xdg_runtime_dir (codes "bgx") in
    let out2 =
      add_under env out1 (codes "default XDG runtime dir") env.default_runtime_dir (codes "bgx") in
    add_common_dir_candidates env out2

unfoldable pub state_dir_candidates : Env → List DirCandidate
state_dir_candidates env =
    let out1 = add_under env [] (codes "$XDG_STATE_HOME") env.xdg_state_home (codes "bgx") in
    let out2 =
      add_under env out1 (codes "default XDG state dir") env.default_state_home (codes "bgx") in
    add_common_dir_candidates env out2

-- `strings.Join` with "; ".
abbrev pub join_attempts : List Bytes → Bytes
join_attempts [] = []
join_attempts (a ∷ []) = a
join_attempts (a ∷ b ∷ r) = a ++ (codes "; " ++ join_attempts (b ∷ r))

abbrev pub attempt : DirCandidate → Bytes → Bytes
attempt c err = c.name ++ codes " (" ++ c.path ++ codes "): " ++ err

abbrev pub fallback_text : Bytes → DirCandidate → List Bytes → Bytes
fallback_text first c attempts =
    codes "bgx: "
    ++ first
    ++ codes " unusable, falling back to "
    ++ c.name
    ++ codes " ("
    ++ c.path
    ++ codes "); skipped: "
    ++ join_attempts attempts

-- `usableDir` gives the error of a directory that is not usable.
abbrev pub Usable : Type 0
Usable = Bytes → Option Bytes

-- The loop of `computeDirResolution` at the candidate `i`; `first` is the name of the first one.
unfoldable pub resolve_from :
    Usable → Bytes → Bytes → ℕ → List Bytes → List DirCandidate → DirResolution
resolve_from usable kind first i attempts [] = record {
  base = [];
  notice = [];
  err = some (
      codes "all base directory fallbacks failed ("
      ++ kind
      ++ codes "): "
      ++ join_attempts attempts);
}
resolve_from usable kind first i attempts (c ∷ cs) = elim (usable c.path) [
  | none ↦ record {
    base = c.path;
    notice = if i == 0 then [] else fallback_text first c attempts;
    err = none;
  }
  | some err ↦ resolve_from usable kind first (suc i) (attempts ++ attempt c err ∷ []) cs
]

abbrev pub first_name : List DirCandidate → Bytes
first_name [] = []
first_name (c ∷ _) = c.name

unfoldable pub compute_dir_resolution : Usable → List DirCandidate → Bytes → DirResolution
compute_dir_resolution usable candidates kind =
    resolve_from usable kind (first_name candidates) 0 [] candidates

-- `socketDir` and `retentionDir`, beneath the base.
abbrev pub under_base : Env → DirResolution → Bytes → Bytes
under_base env r sub = elim r.base [ [] ↦ [] | c ∷ base ↦ env.join (c ∷ base) sub ]

abbrev pub socket_dir : Env → DirResolution → Bytes
socket_dir env runtime = under_base env runtime (codes "run")

abbrev pub retention_dir : Env → DirResolution → Bytes
retention_dir env state = under_base env state (codes "ended")

abbrev pub notices : Bytes → Bytes → List Bytes
notices [] [] = []
notices [] (c ∷ s) = (c ∷ s) ∷ []
notices (c ∷ r) [] = (c ∷ r) ∷ []
notices (c ∷ r) (d ∷ s) = (c ∷ r) ∷ (d ∷ s) ∷ []

abbrev pub fallback_notice : DirResolution → DirResolution → Bytes
fallback_notice runtime state = join_attempts (notices runtime.notice state.notice)
