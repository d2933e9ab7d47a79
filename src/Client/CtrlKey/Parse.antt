-- ===== src/Client/CtrlKey/Parse.antt =====
-- The parser of the key sequence does not read past its final byte.
use bgx.Base.{
  ℕ, zero, suc, ◌≤◌, ◌≡◌, ◌≢◌, refl, ap, ◌∙◌, Bool, true, false, ◌||◌, [], ◌∷◌, ◌++◌, Bytes, arith,
  inl, inr, length, Bool-cases, ◌==◌,
}
use bgx.Client.CtrlKey.{
  is_digit, Decimal, add_digit, decimal_from, parse_decimal, head_is, rest_of, skip_alternates,
  skip_codepoints, text_and_final, event_and_final, modifiers_and_final, keypress_with_mod,
  is_key_at, is_ctrl_backslash,
}

decimal_from-append :
    (value : ℕ) (any : Bool) (r post : Bytes)
    → (decimal_from value any r).rest ≢ []
    → decimal_from value any (r ++ post) ≡ record {
      value = (decimal_from value any r).value;
      ok = (decimal_from value any r).ok;
      rest = (decimal_from value any r).rest ++ post;
    }
unfolding decimal_from
decimal_from-append value any [] post ne = absurd (ne refl)
decimal_from-append value any (b ∷ r) post ne = elim (Bool-cases (is_digit b)) [
  | inl digit ↦ rw digit (decimal_from-append (add_digit value b) true r post (rw digit at ne))
  | inr other ↦ rw other refl
]

decimal_from-length :
    (value : ℕ) (any : Bool) (r : Bytes) → length (decimal_from value any r).rest ≤ length r
unfolding decimal_from
decimal_from-length value any [] = omega arith
decimal_from-length value any (b ∷ r) =
    ground (arith, decimal_from-length (add_digit value b) true r)

head_is-append : (c : ℕ) (r post : Bytes) → r ≢ [] → head_is c (r ++ post) ≡ head_is c r
head_is-append c [] post ne = absurd (ne refl)
head_is-append c (b ∷ r) post ne = refl

rest_of-append : (r post : Bytes) → r ≢ [] → rest_of (r ++ post) ≡ rest_of r ++ post
rest_of-append [] post ne = absurd (ne refl)
rest_of-append (b ∷ r) post ne = refl

head_is-ne-nil : (c : ℕ) (r : Bytes) → head_is c r ≡ true → r ≢ []
head_is-ne-nil c [] h e = cc
head_is-ne-nil c (b ∷ r) h e = cc

skip_codepoints-append :
    (r post : Bytes)
    → skip_codepoints r ≢ []
    → skip_codepoints (r ++ post) ≡ skip_codepoints r ++ post
unfolding skip_codepoints
skip_codepoints-append [] post ne = absurd (ne refl)
skip_codepoints-append (b ∷ r) post ne = elim (Bool-cases (is_digit b || b == b':')) [
  | inl skip ↦ rw skip (skip_codepoints-append r post (rw skip at ne))
  | inr other ↦ rw other refl
]

skip_alternates-nil : (fuel : ℕ) → skip_alternates fuel [] ≡ []
unfolding skip_alternates
skip_alternates-nil zero = refl
skip_alternates-nil (suc fuel) = refl

-- With fuel for the bytes left, neither more fuel nor what follows changes the fields skipped.
skip_alternates-append :
    (f g : ℕ) (r post : Bytes)
    → length r ≤ f
    → length (r ++ post) ≤ g
    → skip_alternates f r ≢ []
    → skip_alternates g (r ++ post) ≡ skip_alternates f r ++ post
unfolding skip_alternates
skip_alternates-append f g [] post hf hg ne = absurd (ne (skip_alternates-nil f))
skip_alternates-append zero g (b ∷ r) post hf hg ne = absurd (omega arith)
skip_alternates-append (suc f) zero (b ∷ r) post hf hg ne = absurd (omega arith)
skip_alternates-append (suc f) (suc g) (b ∷ r) post hf hg ne = elim (Bool-cases (b == b':')) [
  | inl more ↦
      let ne' : skip_alternates f (parse_decimal r).rest ≢ [] = rw more at ne in
      let left : (parse_decimal r).rest ≢ [] =
        λ e. ne' (ap (skip_alternates f) e ∙ skip_alternates-nil f) in
      let read = decimal_from-append 0 false r post left in
      let shorter = decimal_from-length 0 false r in
      let shorter' = decimal_from-length 0 false (r ++ post) in
      rw (more, read)
        (skip_alternates-append f g (parse_decimal r).rest post (omega arith)
          (omega (arith, ap (λ (d : Decimal). length d.rest) read)) ne')
  | inr other ↦ rw other refl
]

text_and_final-ne-nil : (r : Bytes) → text_and_final r ≡ true → r ≢ []
unfolding text_and_final
text_and_final-ne-nil [] h e = cc
text_and_final-ne-nil (b ∷ r) h e = cc

text_and_final-append :
    (r post : Bytes) → text_and_final r ≡ true → text_and_final (r ++ post) ≡ true
unfolding text_and_final
text_and_final-append [] post h = cc
text_and_final-append (b ∷ r) post h = elim (Bool-cases (b == b';')) [
  | inl text ↦
      let h' : head_is b'u' (skip_codepoints r) ≡ true = rw text at h in
      let left = head_is-ne-nil b'u' (skip_codepoints r) h' in
      rw (text, skip_codepoints-append r post left)
        (head_is-append b'u' (skip_codepoints r) post left ∙ h')
  | inr final ↦ rw final (rw final at h)
]

event_and_final-ne-nil : (r : Bytes) → event_and_final r ≡ true → r ≢ []
unfolding event_and_final
event_and_final-ne-nil [] h e = text_and_final-ne-nil [] h refl
event_and_final-ne-nil (b ∷ r) h e = cc

event_and_final-append :
    (r post : Bytes) → event_and_final r ≡ true → event_and_final (r ++ post) ≡ true
unfolding event_and_final
event_and_final-append [] post h = absurd (text_and_final-ne-nil [] h refl)
event_and_final-append (b ∷ r) post h = elim (Bool-cases (b == b':')) [
  | inl event ↦
      let behind : text_and_final (parse_decimal r).rest ≡ true = ground arith in
      let left = text_and_final-ne-nil (parse_decimal r).rest behind in
      ground (
        arith,
        decimal_from-append 0 false r post left,
        text_and_final-append (parse_decimal r).rest post behind,
      )
  | inr plain ↦ rw plain (text_and_final-append (b ∷ r) post (rw plain at h))
]

modifiers_and_final-append :
    (mods : ℕ) (r post : Bytes)
    → modifiers_and_final mods r ≡ true
    → modifiers_and_final mods (r ++ post) ≡ true
unfolding modifiers_and_final
modifiers_and_final-append mods r post h =
    let behind : event_and_final (parse_decimal r).rest ≡ true = ground arith in
    let left = event_and_final-ne-nil (parse_decimal r).rest behind in
    rw (decimal_from-append 0 false r post left)
      (ground (arith, event_and_final-append (parse_decimal r).rest post behind))

keypress_with_mod-append :
    (r post : Bytes) (key mods : ℕ)
    → keypress_with_mod r key mods ≡ true
    → keypress_with_mod (r ++ post) key mods ≡ true
unfolding keypress_with_mod
keypress_with_mod-append r post key mods h =
    let behind_key = (parse_decimal r).rest in
    let skipped = skip_alternates (length behind_key) behind_key in
    let h1 : head_is b';' skipped ≡ true = ground arith in
    let h2 : modifiers_and_final mods (rest_of skipped) ≡ true = ground arith in
    let left : skipped ≢ [] = head_is-ne-nil b';' skipped h1 in
    let left' : behind_key ≢ [] = λ e. left (
      ap (λ (t : Bytes). skip_alternates (length behind_key) t) e
      ∙ skip_alternates-nil (length behind_key)) in
    let read = decimal_from-append 0 false r post left' in
    let skipped' =
      skip_alternates-append (length behind_key) (length (behind_key ++ post)) behind_key post
        (omega arith) (omega arith) left in
    ground (
      arith,
      read,
      skipped',
      head_is-append b';' skipped post left,
      rest_of-append skipped post left,
      modifiers_and_final-append mods (rest_of skipped) post h2,
    )

pub is_key_at-append : (r post : Bytes) → is_key_at r ≡ true → is_key_at (r ++ post) ≡ true
unfolding is_key_at
is_key_at-append (b ∷ c ∷ d ∷ r) post h =
    ground (arith, keypress_with_mod-append (d ∷ r) post 0x5c 4)
is_key_at-append (b ∷ c ∷ []) post h = cc
is_key_at-append (b ∷ []) post h = cc
is_key_at-append [] post h = cc

-- A key that is there stays there, whatever comes before it and behind it.
pub is_ctrl_backslash-key :
    (front k post : Bytes) → is_key_at k ≡ true → is_ctrl_backslash (front ++ (k ++ post)) ≡ true
unfolding is_ctrl_backslash
is_ctrl_backslash-key [] [] post h = unfold is_key_at in cc
is_ctrl_backslash-key [] (b ∷ k) post h = ground (arith, is_key_at-append (b ∷ k) post h)
is_ctrl_backslash-key (b ∷ front) k post h = ground (arith, is_ctrl_backslash-key front k post h)
