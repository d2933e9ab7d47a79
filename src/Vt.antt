-- ===== src/Vt.antt =====
-- vt/vt.go: the terminal over the linked emulator library, with the screen and the modes that it
-- follows by itself. The struct `Terminal` is `Vt`; its methods return the new struct.
pub mod Rounds
pub mod Tracked
pub mod Switch
pub mod Snapshot
pub mod Resume
mod Tests
use bgx.Base.{
  ℕ, zero, suc, ◌+◌, ◌-◌, ◌*◌, ◌%◌, ◌^◌, Bool, true, false, not, ◌&&◌, ◌||◌, List, [], ◌∷◌, ◌++◌,
  map, Option, none, some, Bytes, codes, ltb, leb, within, ◌==◌, if◌then◌else◌, length, take, drop,
}
use bgx.Vtscan.{Scanner, initial, at_ground, step}

-- The emulator library. What fails returns `none`.
pub record Engine : Type 1 where
  pub Term : Type 0
  pub vt_write : Term → Bytes → Term
  pub cursor_x : Term → Option ℕ
  pub cursor_y : Term → Option ℕ
  pub set_size : Term → ℕ → ℕ → Option Term
  pub format : Term → Option Bytes

-- In the order of the source.
abbrev pub tracked_modes : List ℕ
tracked_modes = 1 ∷ 25 ∷ 1000 ∷ 1002 ∷ 1003 ∷ 1004 ∷ 1006 ∷ 2004 ∷ []

abbrev pub max_tracked_sequence : ℕ
max_tracked_sequence = 64

abbrev pub Modes : Type 0
Modes = List (ℕ × Bool)

abbrev pub power_on_modes : Modes
power_on_modes = map (λ m. (m, m == 25)) tracked_modes

-- Sets a mode that is tracked, and no other.
unfoldable pub set_mode : ℕ → Bool → Modes → Modes
set_mode n on [] = []
set_mode n on ((m, b) ∷ ms) = (if m == n then (m, on) else (m, b)) ∷ set_mode n on ms

-- `primary_saved` is none where `ok` is false.
pub record Vt (e : Engine) : Type 0 where
  pub term : e.Term
  pub scan : Scanner
  pub written_rows : ℕ
  pub seq : Bytes
  pub alt : Bool
  pub modes : Modes
  pub primary_saved : Option (ℕ × ℕ)

abbrev pub reset_modes : {e : Engine} → Vt e → Vt e
reset_modes t = record t { alt = false; primary_saved = none; modes = power_on_modes }

abbrev pub new_vt : (e : Engine) → e.Term → Vt e
new_vt e term = record {
  term = term;
  scan = initial;
  written_rows = 0;
  seq = [];
  alt = false;
  modes = power_on_modes;
  primary_saved = none;
}

-- `bytes.Split(s, ";")`; `field` is the field so far.
abbrev pub split_from : Bytes → Bytes → List Bytes
split_from field [] = field ∷ []
split_from field (c ∷ s) =
    let more = split_from (field ++ c ∷ []) s in if c == b';' then field ∷ split_from [] s else more

abbrev pub digits_value : ℕ → Bytes → Option ℕ
digits_value n [] = some n
digits_value n (c ∷ s) =
    let more = digits_value (n * 10 + (c - b'0')) s in if within b'0' b'9' c then more else none

unfoldable pub parse_mode_param : Bytes → Option ℕ
parse_mode_param param =
    if length param == 0 || ltb 5 (length param) then none else digits_value 0 param

abbrev saved_at : Option ℕ → Option ℕ → Option (ℕ × ℕ)
saved_at (some x) (some y) = some (x, y)
saved_at _ _ = none

abbrev pub sample_cursor : {e : Engine} → Vt e → Option (ℕ × ℕ)
sample_cursor {e} t = saved_at (e.cursor_x t.term) (e.cursor_y t.term)

-- The `switch` of `trackSequence`.
abbrev pub apply_mode : {e : Engine} → Vt e → Bool → Option ℕ → Vt e
apply_mode t on none = t
apply_mode t on (some n) =
    if n == 1049
    then record t {
      primary_saved = if on then (if t.alt then t.primary_saved else sample_cursor t) else none;
      alt = on;
    }
    else if n == 47 || n == 1047
    then record t { alt = on }
    else record t { modes = set_mode n on t.modes }

abbrev pub apply_params : {e : Engine} → Vt e → Bool → List Bytes → Vt e
apply_params t on [] = t
apply_params t on (p ∷ ps) = apply_params (apply_mode t on (parse_mode_param p)) on ps

abbrev pub final_byte : Bytes → ℕ
final_byte s = elim (drop (length s - 1) s) [ [] ↦ 0 | c ∷ _ ↦ c ]

-- A sequence that is not RIS: CSI ? Pm h or l.
abbrev pub track_private : {e : Engine} → Vt e → Bytes → Vt e
track_private t (c ∷ d ∷ q ∷ rest) =
    let final = final_byte rest in
    if ltb (length rest) 2 || not (c == 0x1b) || not (d == b'[') || not (q == b'?')
    then t
    else if not (final == b'h') && not (final == b'l')
    then t
    else apply_params t (final == b'h') (split_from [] (take (length rest - 1) rest))
track_private t _ = t

abbrev pub is_ris : Bytes → Bool
is_ris (c ∷ d ∷ []) = c == 0x1b && d == b'c'
is_ris _ = false

-- `trackSequence`: the terminal, and whether the active screen was switched.
unfoldable pub track_sequence : {e : Engine} → Vt e → Bytes → Vt e
track_sequence t seq = if is_ris seq then reset_modes t else track_private t seq

abbrev pub differs : Bool → Bool → Bool
differs true b = not b
differs false b = b

-- `flush`; the row is a uint16.
unfoldable pub flush : {e : Engine} → Vt e → Bytes → Vt e
flush t [] = t
flush {e} t (c ∷ p) =
    let term = e.vt_write t.term (c ∷ p) in
    elim (e.cursor_y term) [
      | none ↦ record t { term = term }
      | some row ↦
          let touched = (row + 1) % 2 ^ 16 in
          record t {
            term = term;
            written_rows = if ltb t.written_rows touched then touched else t.written_rows;
          }
    ]

-- A byte is noted in the sequence in progress, which an ESC or a byte at ground begins.
unfoldable pub note_byte : {e : Engine} → Vt e → ℕ → Vt e
note_byte t b =
    let seq = if at_ground t.scan || b == 0x1b then [] else t.seq in
    record t {
      seq = if ltb (length seq) max_tracked_sequence then seq ++ b ∷ [] else seq;
      scan = step t.scan b;
    }

abbrev pub is_control : ℕ → Bool
is_control b = ltb b 0x20 || b == 0x7f

-- A sequence begins here: what is held is flushed.
abbrev pub flushes_before : {e : Engine} → Vt e → ℕ → Bool
flushes_before t b = at_ground t.scan && (b == 0x1b || is_control b)

abbrev pub sequence_ended : {e : Engine} → Vt e → Vt e → Bool
sequence_ended before after = not (at_ground before.scan) && at_ground after.scan

abbrev pub ground_control : {e : Engine} → Vt e → ℕ → Bool
ground_control before b = at_ground before.scan && is_control b && not (b == 0x1b)

pub record Written (e : Engine) : Type 0 where
  pub vt : Vt e
  pub before : ℕ
  pub consumed : ℕ
  pub switched : Bool

abbrev pub offset_or_zero : Option ℕ → ℕ
offset_or_zero none = 0
offset_or_zero (some n) = n

-- What a byte does: `vt` has yet to be given the bytes held, which `flushes` tells to be flushed, and
-- `switched` that its sequence has switched the screen.
pub record Round (e : Engine) : Type 0 where
  pub vt : Vt e
  pub held : Bytes
  pub switched : Bool
  pub flushes : Bool

unfoldable pub write_round : {e : Engine} → Vt e → Bytes → ℕ → Round e
write_round t held b =
    let t1 = if flushes_before t b then flush t held else t in
    let t2 = note_byte t1 b in
    let ended = sequence_ended t t2 in
    let t3 = if ended then track_sequence t2 t2.seq else t2 in
    record {
      vt = t3;
      held = (if flushes_before t b then [] else held) ++ b ∷ [];
      switched = ended && differs t2.alt t3.alt;
      flushes = ended || ground_control t b;
    }

-- `seqStart`, at the offset `i`.
abbrev pub start_at : {e : Engine} → Vt e → ℕ → ℕ → Option ℕ → Option ℕ
start_at t b i start = if at_ground t.scan || b == 0x1b then some i else start

-- The loop of `write` from the offset `i`: `held` is what is not flushed, `start` is `seqStart`.
unfoldable pub write_loop : {e : Engine} → Bool → Vt e → Bytes → ℕ → Option ℕ → Bytes → Written e
write_loop stop t held i start [] = record {
  vt = flush t held;
  before = i;
  consumed = i;
  switched = false;
}
write_loop stop t held i start (b ∷ p) =
    let r = write_round t held b in
    let flushed = write_loop stop (flush r.vt r.held) [] (i + 1) (start_at t b i start) p in
    let kept = write_loop stop r.vt r.held (i + 1) (start_at t b i start) p in
    if r.switched && stop
    then record {
      vt = flush r.vt r.held;
      before = offset_or_zero (start_at t b i start);
      consumed = i + 1;
      switched = true;
    }
    else if r.flushes
    then flushed
    else kept

unfoldable pub write_until_screen_switch : {e : Engine} → Vt e → Bytes → Written e
write_until_screen_switch t p = write_loop true t [] 0 none p

unfoldable pub write : {e : Engine} → Vt e → Bytes → Vt e
write t p = (write_loop false t [] 0 none p).vt

-- `Resize`; `none` is its error.
unfoldable pub resize : {e : Engine} → Vt e → ℕ → ℕ → Option (Vt e)
resize {e} t cols rows = elim (e.set_size t.term cols rows) [
  | none ↦ none
  | some term ↦ some (record t {
    term = term;
    written_rows = if ltb rows t.written_rows then rows else t.written_rows;
  })
]
