-- ===== src/Client/CtrlKey/Stuck.antt =====
-- Another key of the same code: what follows it is held back as well.
use bgx.Base.{
  ℕ, ◌≡◌, ◌≢◌, refl, Bool, true, false, not, ◌||◌, [], ◌∷◌, ◌++◌, none, Bytes, arith, length, All,
  ◌==◌,
}
use native.Mathlib.Nat.{sub_self}
use bgx.Client.CtrlKey.{
  keypress_with_mod, skip_alternates, modifiers_and_final, decimal_from, esc, is_digit, is_key_at,
  is_ctrl_backslash, last_escape, ctrl_backslash_prefix, ctrl_backslash_suffix_len, DetachScanner,
  feed,
}

-- Neither ESC nor the raw ctrl+\.
abbrev pub is_typed : ℕ → Bool
is_typed b = not (b == esc || b == 0x1c)

abbrev pub IsTyped : ℕ → Type 0
IsTyped b = is_typed b ≡ true

is_key_at_typed : (b : ℕ) (r : Bytes) → IsTyped b → is_key_at (b ∷ r) ≡ false
unfolding is_key_at
is_key_at_typed b [] h = refl
is_key_at_typed b (c ∷ []) h = refl
is_key_at_typed b (c ∷ d ∷ r) h = ground arith

is_ctrl_backslash_typed : (r : Bytes) → All IsTyped r → is_ctrl_backslash r ≡ false
unfolding is_ctrl_backslash
is_ctrl_backslash_typed [] h = refl
is_ctrl_backslash_typed (b ∷ r) (h, hs) =
    ground (arith, is_key_at_typed b r h, is_ctrl_backslash_typed r hs)

last_escape_typed : (r : Bytes) → All IsTyped r → last_escape r ≡ none
unfolding last_escape
last_escape_typed [] h = refl
last_escape_typed (b ∷ r) (h, hs) = rw (last_escape_typed r hs) (ground arith)

-- The key `\` with the modifier digit `m`, which counts from one: 5 is ctrl, 3 is alt.
abbrev pub backslash_key : ℕ → Bytes
backslash_key m = esc ∷ b'[' ∷ b'9' ∷ b'2' ∷ b';' ∷ m ∷ b'u' ∷ []

backslash_key_other :
    (m : ℕ) (rest : Bytes)
    → is_digit m ≡ true
    → m ≢ b'5'
    → is_key_at (backslash_key m ++ rest) ≡ false
unfolding is_key_at keypress_with_mod skip_alternates modifiers_and_final decimal_from
backslash_key_other m rest h ne = ground arith

-- The key behind its ESC.
abbrev key_tail : ℕ → Bytes → Bytes
key_tail m rest = b'[' ∷ b'9' ∷ b'2' ∷ b';' ∷ m ∷ b'u' ∷ rest

key_tail-IsTyped :
    (m : ℕ) (rest : Bytes) → is_digit m ≡ true → All IsTyped rest → All IsTyped (key_tail m rest)
key_tail-IsTyped m rest d h = (refl, (refl, (refl, (refl, (ground arith, (refl, h))))))

no_key :
    (m : ℕ) (rest : Bytes)
    → is_digit m ≡ true
    → m ≢ b'5'
    → All IsTyped rest
    → is_ctrl_backslash (backslash_key m ++ rest) ≡ false
unfolding is_ctrl_backslash
no_key m rest d ne h =
    rw (backslash_key_other m rest d ne)
      (is_ctrl_backslash_typed (key_tail m rest) (key_tail-IsTyped m rest d h))

held_whole :
    (m : ℕ) (rest : Bytes)
    → is_digit m ≡ true
    → All IsTyped rest
    → ctrl_backslash_suffix_len (backslash_key m ++ rest) ≡ length (backslash_key m ++ rest)
unfolding ctrl_backslash_suffix_len last_escape
held_whole m rest d h =
    let none_behind = last_escape_typed (key_tail m rest) (key_tail-IsTyped m rest d h) in
    rw (none_behind, last_escape) (unfold ctrl_backslash_prefix in refl)

-- After a backslash key with another modifier than ctrl (3 is alt), reported as `CSI 92 ; m u`, the
-- scanner holds back the key itself and all that is typed behind it, in this read and in every
-- later one, up to the next ESC or the detach key.
pub feed_stuck :
    (d : DetachScanner) (p : Bytes) (m : ℕ) (rest : Bytes)
    → d.pending ++ p ≡ backslash_key m ++ rest
    → is_digit m ≡ true
    → m ≢ b'5'
    → All IsTyped rest
    → feed d p
      ≡ record { scanner = record { pending = d.pending ++ p }; forward = []; detach = false }
unfolding feed
feed_stuck d p m rest e digit ne h =
    rw (e, no_key m rest digit ne h, held_whole m rest digit h, sub_self) refl
