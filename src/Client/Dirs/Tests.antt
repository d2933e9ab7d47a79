-- ===== src/Client/Dirs/Tests.antt =====
-- Directories in a concrete environment.
use bgx.Base.{◌≡◌, refl, [], ◌∷◌, ◌++◌, none, some, codes, if◌then◌else◌}
use bgx.Daemon.Retention.{same_bytes}
use bgx.Client.Dirs.{
  Env, Usable, dir_candidates, state_dir_candidates, add, add_common_dir_candidates,
  compute_dir_resolution, resolve_from,
}
use bgx.Client.Dirs.Distinct.{IsDistinct, dir_candidates-IsDistinct}

abbrev env : Env
env = record {
  xdg_runtime_dir = codes "/run/1";
  default_runtime_dir = codes "/run/1";
  xdg_state_home = [];
  default_state_home = codes "/home/u/.local/state";
  home = some (codes "/home/u");
  temp_dir = codes "/tmp";
  cwd = none;
  join = λ p q. p ++ (codes "/" ++ q);
}

abbrev only_tmp : Usable
only_tmp path = if same_bytes path (codes "/tmp/bgx") then none else some (codes "denied")

candidates :
    dir_candidates env
    ≡ record { name = codes "$XDG_RUNTIME_DIR"; path = codes "/run/1/bgx" }
      ∷ record { name = codes "$HOME/.bgx"; path = codes "/home/u/.bgx" }
      ∷ record { name = codes "/tmp/bgx"; path = codes "/tmp/bgx" }
      ∷ []
unfolding dir_candidates add add_common_dir_candidates
candidates = refl

fallback :
    (compute_dir_resolution only_tmp (dir_candidates env) (codes "runtime")).notice
    ≡ codes
        "bgx: $XDG_RUNTIME_DIR unusable, falling back to /tmp/bgx (/tmp/bgx); skipped: $XDG_RUNTIME_DIR (/run/1/bgx): denied; $HOME/.bgx (/home/u/.bgx): denied"
unfolding compute_dir_resolution resolve_from dir_candidates add add_common_dir_candidates
fallback = refl

dir_candidates-IsDistinct_example :
    IsDistinct (dir_candidates env) × IsDistinct (state_dir_candidates env)
dir_candidates-IsDistinct_example = dir_candidates-IsDistinct env
