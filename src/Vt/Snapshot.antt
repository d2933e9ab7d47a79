-- ===== src/Vt/Snapshot.antt =====
-- vt/vt.go: rendering the screens and the modes that are followed. What renders switches the
-- emulator's screen and back, so it returns the terminal as well.
pub mod ModesReplay
pub mod Tracking
pub mod Quiet
pub mod Replay
mod Tests
use bgx.Base.{
  ℕ, ◌+◌, ◌%◌, ◌^◌, Bool, true, false, List, [], ◌∷◌, ◌++◌, Option, none, some, Bytes, codes,
  decimal, ◌==◌, if◌then◌else◌,
}
use bgx.Vt.{Engine, Vt, Modes, tracked_modes}

abbrev pub esc : Bytes → Bytes
esc s = 0x1b ∷ s

-- ESC [ ? 1049 l, ESC [ 2 J, ESC [ H.
abbrev pub snapshot_prefix : Bytes
snapshot_prefix = esc (codes "[?1049l") ++ esc (codes "[2J") ++ esc (codes "[H")

abbrev pub dump_screen : {e : Engine} → Vt e → Option Bytes
dump_screen {e} t = e.format t.term

-- `t.modes[m]`.
abbrev pub mode_is_set : ℕ → Modes → Bool
mode_is_set n [] = false
mode_is_set n ((m, on) ∷ ms) = let rest = mode_is_set n ms in if m == n then on else rest

-- The set or reset sequence of a mode.
abbrev pub mode_sequence : ℕ → Bool → Bytes
mode_sequence m on = esc (codes "[?") ++ decimal m ++ (if on then b'h' else b'l') ∷ []

abbrev pub sequences_of : Modes → List ℕ → Bytes
sequences_of modes [] = []
sequences_of modes (m ∷ ms) = mode_sequence m (mode_is_set m modes) ++ sequences_of modes ms

unfoldable pub mode_sequences : {e : Engine} → Vt e → Bytes
mode_sequences t = sequences_of t.modes tracked_modes

-- A write that bypasses what is followed.
abbrev pub bypass : {e : Engine} → Vt e → Bytes → Vt e
bypass {e} t p = record t { term = e.vt_write t.term p }

abbrev pub to_primary : Bytes
to_primary = esc (codes "[?47l")

abbrev pub to_alternate : Bytes
to_alternate = esc (codes "[?47h")

-- `CSI row ; column H` for the saved cursor, whose coordinates are uint16.
abbrev pub saved_position : Option (ℕ × ℕ) → Bytes
saved_position none = []
saved_position (some (x, y)) =
    0x1b ∷ b'[' ∷ (decimal ((y + 1) % 2 ^ 16) ++ (b';' ∷ (decimal ((x + 1) % 2 ^ 16) ++ b'H' ∷ [])))

-- What the two renderings share: the primary screen, and the terminal back on its own.
abbrev pub primary_dump : {e : Engine} → Vt e → Vt e × Option Bytes
primary_dump t =
    if t.alt
    then (bypass (bypass t to_primary) to_alternate, dump_screen (bypass t to_primary))
    else (t, dump_screen t)

abbrev pub alternate_part : Bytes → Bytes → Bytes
alternate_part alt modes =
    esc (codes "[?1049h")
    ++ esc (codes "[2J")
    ++ esc (codes "[H")
    ++ esc (codes "[0m")
    ++ (alt ++ modes)

abbrev pub both_screens : Option (ℕ × ℕ) → Bytes → Option Bytes → Bytes → Option Bytes
both_screens saved primary none modes = none
both_screens saved primary (some alt) modes = some (
    snapshot_prefix
    ++ esc (codes "[0m")
    ++ (primary ++ (saved_position saved ++ (alternate_part alt modes))))

abbrev pub snapshot_of : {e : Engine} → Vt e → Option Bytes → Option Bytes
snapshot_of t none = none
snapshot_of t (some primary) =
    if t.alt
    then both_screens t.primary_saved primary (dump_screen t) (mode_sequences t)
    else some (snapshot_prefix ++ esc (codes "[0m") ++ (primary ++ mode_sequences t))

-- `Snapshot`; `none` is its error.
unfoldable pub snapshot : {e : Engine} → Vt e → Vt e × Option Bytes
snapshot t = let (t', primary) = primary_dump t in (t', snapshot_of t' primary)

abbrev pub placed : Option (ℕ × ℕ) → Option Bytes → Option Bytes
placed saved none = none
placed saved (some primary) = some (primary ++ saved_position saved)

-- `DumpPrimaryScreen`.
unfoldable pub dump_primary_screen : {e : Engine} → Vt e → Vt e × Option Bytes
dump_primary_screen t =
    let (t', primary) = primary_dump t in
    (t', if t.alt then placed t.primary_saved primary else primary)
