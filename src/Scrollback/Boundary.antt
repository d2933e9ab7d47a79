-- ===== src/Scrollback/Boundary.antt =====
-- scrollback/store.go: `boundaryCut` and `boundaryTrim`. A chunk buffer is cut where a fresh scanner
-- is at ground and the next byte starts a rune.
pub mod Nearest
use bgx.Base.Int.{pos}
use bgx.Base.{
  ℕ, zero, suc, ◌+◌, ◌≤◌, ◌<◌, ◌≡◌, refl, Bool, true, false, ◌||◌, not, List, [], ◌∷◌, Option, none,
  some, Bytes, ltb, leb, if◌then◌else◌, length, arith,
}
use bgx.Vtscan.{Scanner, initial, at_ground, step, splits_rune, safe_cut}

-- The loop of `boundaryCut`, which has read `off` bytes; -1 is `none`.
unfoldable pub boundary_cut_loop : Scanner → Bytes → ℕ → ℕ → Option ℕ → Option ℕ
boundary_cut_loop sc [] off target best = best
boundary_cut_loop sc (b ∷ rest) off target best =
    let sc' = step sc b in
    let skip = boundary_cut_loop sc' rest (off + 1) target best in
    let take_it = boundary_cut_loop sc' rest (off + 1) target (some (off + 1)) in
    if splits_rune rest
    then skip
    else if not (at_ground sc')
    then skip
    else if leb (off + 1) target
    then take_it
    else elim best [ some n ↦ some n | none ↦ some (off + 1) ]

unfoldable pub boundary_cut : Bytes → ℕ → Option ℕ
boundary_cut chunk_buf target = boundary_cut_loop initial chunk_buf 0 target none

abbrev second_try : Bytes → ℕ
second_try buf = elim (safe_cut initial buf (pos (length buf))) [ some off ↦ off | none ↦ 0 ]

unfoldable pub boundary_trim : Bytes → ℕ → ℕ
boundary_trim buf want = elim (safe_cut initial buf (pos want)) [
  | some off ↦ off
  | none ↦ second_try buf
]
