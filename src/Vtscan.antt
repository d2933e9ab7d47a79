-- ===== src/Vtscan.antt =====
-- vtscan/vtscan.go: the VT scanner. `Scanner` is the struct, its methods are functions that
-- return the new struct; -1 as the result of `SafeCut` is `none`.
pub mod Valid
pub mod Cut
pub mod Atomic
pub mod Sequences
mod Tests
use bgx.Base.Int.{ℤ, pos, negsuc}
use bgx.Base.{
  ℕ, ◌+◌, ◌-◌, min, Bool, true, false, not, ◌&&◌, ◌||◌, List, [], ◌∷◌, Option, none, some, Bytes,
  ltb, leb, within, ◌==◌, if◌then◌else◌, ◌/◌, length,
}

pub data State : Type 0 where
  ground escape escape_intermediate csi_entry csi_param csi_intermediate csi_ignore : State
  dcs_entry dcs_param dcs_intermediate dcs_passthrough dcs_ignore osc_string string_ignore : State

pub record Scanner : Type 0 where
  pub st : State
  pub utf8_pending : ℕ

-- The zero value, and what `Reset` returns to.
abbrev pub initial : Scanner
initial = record { st = ground; utf8_pending = 0 }

abbrev pub reset : Scanner → Scanner
reset s = record s { st = ground; utf8_pending = 0 }

abbrev pub is_ground : State → Bool
is_ground ground = true
is_ground _ = false

abbrev pub at_ground : Scanner → Bool
at_ground s = is_ground s.st && s.utf8_pending == 0

abbrev enter : Scanner → State → Scanner
enter s st = record s { st = st }

-- The `switch` of `stepGround`.
ground_byte : Scanner → ℕ → Scanner
ground_byte s b =
    if b == 0x1b
    then enter s escape
    else if ltb b 0x80
    then s
    else if ltb b 0xc0
    then s
    else if ltb b 0xe0
    then record s { utf8_pending = 1 }
    else if ltb b 0xf0
    then record s { utf8_pending = 2 }
    else if ltb b 0xf8
    then record s { utf8_pending = 3 }
    else s

step_ground : Scanner → ℕ → Scanner
unfolding ground_byte
step_ground s b =
    if ltb 0 s.utf8_pending
    then (if within 0x80 0xbf b
        then record s { utf8_pending = s.utf8_pending - 1 }
        else ground_byte (record s { utf8_pending = 0 }) b)
    else ground_byte s b

step_escape : Scanner → ℕ → Scanner
step_escape s b =
    if b == 0x50
    then enter s dcs_entry
    else if b == 0x5b
    then enter s csi_entry
    else if b == 0x5d
    then enter s osc_string
    else if b == 0x58 || b == 0x5e || b == 0x5f
    then enter s string_ignore
    else if within 0x20 0x2f b
    then enter s escape_intermediate
    else if within 0x30 0x7e b
    then enter s ground
    else s

abbrev is_csi_entry : State → Bool
is_csi_entry csi_entry = true
is_csi_entry _ = false

step_csi : Scanner → ℕ → Scanner
step_csi s b =
    if within 0x40 0x7e b
    then enter s ground
    else if within 0x20 0x2f b
    then enter s csi_intermediate
    else if b == 0x3a
    then enter s csi_ignore
    else if within 0x30 0x39 b || b == 0x3b
    then enter s csi_param
    else if within 0x3c 0x3f b
    then (if is_csi_entry s.st then enter s csi_param else enter s csi_ignore)
    else s

step_csi_intermediate : Scanner → ℕ → Scanner
step_csi_intermediate s b =
    if within 0x40 0x7e b
    then enter s ground
    else if within 0x20 0x2f b
    then s
    else if within 0x30 0x3f b
    then enter s csi_ignore
    else s

-- `stepDCS`, whose `switch` reads the state that `step` has switched on.
step_dcs : State → Scanner → ℕ → Scanner
step_dcs dcs_entry s b =
    if within 0x20 0x2f b
    then enter s dcs_intermediate
    else if b == 0x3a
    then enter s dcs_ignore
    else if within 0x30 0x39 b || within 0x3b 0x3f b
    then enter s dcs_param
    else if within 0x40 0x7e b
    then enter s dcs_passthrough
    else s
step_dcs dcs_param s b =
    if within 0x30 0x39 b || b == 0x3b
    then s
    else if b == 0x3a || within 0x3c 0x3f b
    then enter s dcs_ignore
    else if within 0x20 0x2f b
    then enter s dcs_intermediate
    else if within 0x40 0x7e b
    then enter s dcs_passthrough
    else s
step_dcs dcs_intermediate s b =
    if within 0x20 0x2f b
    then s
    else if within 0x30 0x3f b
    then enter s dcs_ignore
    else if within 0x40 0x7e b
    then enter s dcs_passthrough
    else s
step_dcs _ s b = s

-- The second `switch` of `step`, on the state.
step_sequence : State → Scanner → ℕ → Scanner
unfolding step_escape step_csi step_csi_intermediate step_dcs
step_sequence escape s b = step_escape s b
step_sequence escape_intermediate s b = if within 0x30 0x7e b then enter s ground else s
step_sequence csi_entry s b = step_csi s b
step_sequence csi_param s b = step_csi s b
step_sequence csi_intermediate s b = step_csi_intermediate s b
step_sequence csi_ignore s b = if within 0x40 0x7e b then enter s ground else s
step_sequence dcs_entry s b = step_dcs dcs_entry s b
step_sequence dcs_param s b = step_dcs dcs_param s b
step_sequence dcs_intermediate s b = step_dcs dcs_intermediate s b
step_sequence osc_string s b = if b == 0x07 then enter s ground else s
step_sequence _ s b = s

unfoldable pub step : Scanner → ℕ → Scanner
unfolding step_ground step_sequence
step s b =
    if is_ground s.st
    then step_ground s b
    else if b == 0x18 || b == 0x1a
    then enter s ground
    else if b == 0x1b
    then enter s escape
    else step_sequence s.st s b

unfoldable pub advance : Scanner → Bytes → Scanner
advance s [] = s
advance s (b ∷ p) = advance (step s b) p

-- `utf8.RuneStart`, `b & 0xC0 != 0x80` on a byte.
abbrev pub rune_start : ℕ → Bool
rune_start b = not (b / 64 == 2)

-- `off < len(buf) && !utf8.RuneStart(buf[off])`, on what follows the offset.
abbrev pub splits_rune : Bytes → Bool
splits_rune [] = false
splits_rune (b ∷ _) = not (rune_start b)

-- `best` after the offset `off` has been looked at: `cp` has read up to it, `rest` follows it.
abbrev pub note : Scanner → Bytes → ℕ → Option ℕ → Option ℕ
note cp rest off best = if splits_rune rest then best else if at_ground cp then some off else best

-- The loop of `SafeCut`; `off` is `i`, and the bytes are those from it on.
unfoldable pub safe_cut_loop : Scanner → Bytes → ℕ → ℕ → Option ℕ → Option ℕ
safe_cut_loop cp [] off target best = best
safe_cut_loop cp (b ∷ rest) off target best =
    let later =
      safe_cut_loop (step cp b) rest (off + 1) target (note (step cp b) rest (off + 1) best) in
    if ltb target (off + 1) then best else later

unfoldable pub safe_cut : Scanner → Bytes → ℤ → Option ℕ
unfolding safe_cut_loop
safe_cut s buf (negsuc _) = none
safe_cut s buf (pos target) =
    safe_cut_loop s buf 0 (min target (length buf)) (if at_ground s then some 0 else none)
