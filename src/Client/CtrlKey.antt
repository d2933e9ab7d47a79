-- ===== src/Client/CtrlKey.antt =====
-- ctrlkey.go: the detach key in the terminal's input. An index into `buf` is the list of the bytes
-- from it on, so a parse returns what is left behind it.
pub mod Parse
pub mod Fragment
pub mod Split
pub mod Feed
pub mod Stuck
mod Tests
use bgx.Base.{
  ℕ, zero, suc, ◌+◌, ◌-◌, ◌*◌, ◌%◌, ◌^◌, Bool, true, false, not, ◌&&◌, ◌||◌, List, [], ◌∷◌, ◌++◌,
  Option, none, some, Bytes, codes, ltb, within, ◌==◌, if◌then◌else◌, length, take, drop,
}

abbrev pub is_digit : ℕ → Bool
is_digit b = within b'0' b'9' b

abbrev pub esc : ℕ
esc = 0x1b

-- What `parseDecimal` reads: the value, a uint32, whether there was a digit, and what is left.
pub record Decimal : Type 0 where
  pub value : ℕ
  pub ok : Bool
  pub rest : Bytes

-- A digit more, in 32 bits.
abbrev pub add_digit : ℕ → ℕ → ℕ
add_digit value b = (value * 10 + (b - b'0')) % 2 ^ 32

unfoldable pub decimal_from : ℕ → Bool → Bytes → Decimal
decimal_from value any [] = record { value = value; ok = any; rest = [] }
decimal_from value any (b ∷ r) =
    let more = decimal_from (add_digit value b) true r in
    if is_digit b then more else record { value = value; ok = any; rest = b ∷ r }

abbrev pub parse_decimal : Bytes → Decimal
parse_decimal = decimal_from 0 false

abbrev pub head_is : ℕ → Bytes → Bool
head_is c [] = false
head_is c (b ∷ _) = b == c

abbrev pub rest_of : Bytes → Bytes
rest_of [] = []
rest_of (_ ∷ r) = r

-- The loop over `:alternate-key` fields, with the number of bytes left as fuel.
unfoldable pub skip_alternates : ℕ → Bytes → Bytes
skip_alternates zero r = r
skip_alternates (suc fuel) r =
    let more = skip_alternates fuel (parse_decimal (rest_of r)).rest in
    if head_is b':' r then more else r

-- The loop over the bytes of a `;text-codepoints` field.
unfoldable pub skip_codepoints : Bytes → Bytes
skip_codepoints [] = []
skip_codepoints (b ∷ r) = if is_digit b || b == b':' then skip_codepoints r else b ∷ r

-- From the optional text field on.
unfoldable pub text_and_final : Bytes → Bool
text_and_final r =
    if head_is b';' r then head_is b'u' (skip_codepoints (rest_of r)) else head_is b'u' r

-- From the optional event type on.
unfoldable pub event_and_final : Bytes → Bool
event_and_final r =
    if head_is b':' r
    then (let event = parse_decimal (rest_of r) in
        if not event.ok
        then false
        else if event.value == 3
        then false
        else text_and_final event.rest)
    else text_and_final r

-- From the modifiers on.
unfoldable pub modifiers_and_final : ℕ → Bytes → Bool
modifiers_and_final expected_mods r =
    let mods = parse_decimal r in
    let intentional_mods = (mods.value - 1) % 64 in
    if not mods.ok || ltb mods.value 1
    then false
    else if ltb 0 expected_mods && not (expected_mods == intentional_mods)
    then false
    else event_and_final mods.rest

unfoldable pub keypress_with_mod : Bytes → ℕ → ℕ → Bool
keypress_with_mod buf expected_key expected_mods =
    let key = parse_decimal buf in
    let r = skip_alternates (length key.rest) key.rest in
    if not key.ok || not (key.value == expected_key)
    then false
    else if not (head_is b';' r)
    then false
    else modifiers_and_final expected_mods (rest_of r)

-- The test at one index: `i+2 < len(buf)` and the introducer, then the key 92 with ctrl.
unfoldable pub is_key_at : Bytes → Bool
is_key_at (b ∷ c ∷ d ∷ r) = b == esc && c == b'[' && keypress_with_mod (d ∷ r) 0x5c 4
is_key_at _ = false

unfoldable pub is_ctrl_backslash : Bytes → Bool
is_ctrl_backslash [] = false
is_ctrl_backslash (b ∷ r) = b == 0x1c || is_key_at (b ∷ r) || is_ctrl_backslash r

-- `isPrefixOf`: a prefix of the text.
unfoldable pub is_prefix_of : Bytes → Bytes → Bool
is_prefix_of [] s = true
is_prefix_of (b ∷ bs) [] = false
is_prefix_of (b ∷ bs) (c ∷ s) = b == c && is_prefix_of bs s

-- The digits in front, and what follows them.
unfoldable pub span_digits : Bytes → Bytes × Bytes
span_digits [] = ([], [])
span_digits (b ∷ r) =
    let (digits, behind) = span_digits r in if is_digit b then (b ∷ digits, behind) else ([], b ∷ r)

abbrev pub is_92 : Bytes → Bool
is_92 (a ∷ b ∷ []) = a == b'9' && b == b'2'
is_92 _ = false

-- Behind `ESC [`.
unfoldable pub key_prefix : Bytes → Bytes → Bool
unfolding is_prefix_of
key_prefix key_digits [] = is_prefix_of key_digits (codes "92")
key_prefix key_digits (c ∷ _) = if not (is_92 key_digits) then false else c == b':' || c == b';'

unfoldable pub ctrl_backslash_prefix : Bytes → Bool
unfolding key_prefix span_digits
ctrl_backslash_prefix [] = false
ctrl_backslash_prefix (b ∷ []) = true
ctrl_backslash_prefix (b ∷ c ∷ rest) =
    let (digits, behind) = span_digits rest in
    if not (c == b'[') then false else key_prefix digits behind

-- The search from the end: the bytes from the last ESC on.
unfoldable pub last_escape : Bytes → Option Bytes
last_escape [] = none
last_escape (b ∷ r) = elim (last_escape r) [
  | some s ↦ some s
  | none ↦ if b == esc then some (b ∷ r) else none
]

abbrev pub held_length : Option Bytes → ℕ
held_length none = 0
held_length (some s) = if ctrl_backslash_prefix s then length s else 0

unfoldable pub ctrl_backslash_suffix_len : Bytes → ℕ
ctrl_backslash_suffix_len buf = held_length (last_escape buf)

pub record DetachScanner : Type 0 where
  pub pending : Bytes

pub record Fed : Type 0 where
  pub scanner : DetachScanner
  pub forward : Bytes
  pub detach : Bool

unfoldable pub feed : DetachScanner → Bytes → Fed
feed d p =
    let buf = d.pending ++ p in
    let cut = length buf - ctrl_backslash_suffix_len buf in
    if is_ctrl_backslash buf
    then record { scanner = record { pending = [] }; forward = []; detach = true }
    else record {
      scanner = record { pending = drop cut buf };
      forward = take cut buf;
      detach = false;
    }

unfoldable pub flush : DetachScanner → DetachScanner × Bytes
flush d = (record { pending = [] }, d.pending)
