-- ===== src/Client/CtrlKey/Fragment.antt =====
-- What the test for a fragment of the detach key takes.
use bgx.Base.{
  ℕ, ◌≡◌, refl, true, false, ◌||◌, Bool, subst, [], ◌∷◌, Bytes, arith, inl, inr, Bool-cases, ◌==◌,
}
use bgx.Client.CtrlKey.{
  is_digit, is_92, is_prefix_of, key_prefix, span_digits, esc, ctrl_backslash_prefix,
}

-- ESC alone, with `[` and a beginning of 92, or with `[92`, a colon or semicolon, and anything behind.
pub data KeyFragment : Bytes → Type 0 where
  escape : KeyFragment (esc ∷ [])
  bracket : KeyFragment (esc ∷ b'[' ∷ [])
  nine : KeyFragment (esc ∷ b'[' ∷ b'9' ∷ [])
  digits : KeyFragment (esc ∷ b'[' ∷ b'9' ∷ b'2' ∷ [])
  fields :
      (c : ℕ) (rest : Bytes)
      → (c == b':' || c == b';') ≡ true
      → KeyFragment (esc ∷ b'[' ∷ b'9' ∷ b'2' ∷ c ∷ rest)

digit_on :
    (b : ℕ) (r : Bytes)
    → is_digit b ≡ true
    → span_digits (b ∷ r) ≡ (b ∷ (span_digits r).0, (span_digits r).1)
unfolding span_digits
digit_on b r h = rw h refl

digit_stop : (b : ℕ) (r : Bytes) → is_digit b ≡ false → span_digits (b ∷ r) ≡ ([], b ∷ r)
unfolding span_digits
digit_stop b r h = rw h refl

-- The test behind `ESC [`.
abbrev fits_key : Bytes → Bool
fits_key rest = key_prefix (span_digits rest).0 (span_digits rest).1

too_long : (a b d : ℕ) (ds behind : Bytes) → key_prefix (a ∷ b ∷ d ∷ ds) behind ≡ true → ⊥
unfolding key_prefix is_prefix_of
too_long a b d ds [] h = ground arith
too_long a b d ds (c ∷ behind) h = cc

two_digits :
    (a b : ℕ) (behind : Bytes) → key_prefix (a ∷ b ∷ []) behind ≡ true → (a ≡ b'9') × (b ≡ b'2')
unfolding key_prefix is_prefix_of
two_digits a b [] h = ground arith
two_digits a b (c ∷ behind) h = elim (Bool-cases (is_92 (a ∷ b ∷ []))) [
  | inl is ↦ ground arith
  | inr other ↦ cc (rw other at h)
]

field_there :
    (c : ℕ) (behind : Bytes)
    → key_prefix (b'9' ∷ b'2' ∷ []) (c ∷ behind) ≡ true
    → (c == b':' || c == b';') ≡ true
unfolding key_prefix
field_there c behind h = h

behind_digits :
    (a b : ℕ) (r : Bytes)
    → key_prefix (a ∷ b ∷ (span_digits r).0) (span_digits r).1 ≡ true
    → KeyFragment (esc ∷ b'[' ∷ a ∷ b ∷ r)
unfolding span_digits
behind_digits a b [] h =
    let (nine_is, two_is) = two_digits a b [] h in rw (nine_is, two_is) KeyFragment.digits
behind_digits a b (c ∷ r) h = elim (Bool-cases (is_digit c)) [
  | inl more ↦ absurd (
      too_long a b c (span_digits r).0 (span_digits r).1
        (subst (λ (s : Bytes × Bytes). key_prefix (a ∷ b ∷ s.0) s.1 ≡ true) (digit_on c r more) h))
  | inr over ↦
      let h' : key_prefix (a ∷ b ∷ []) (c ∷ r) ≡ true =
        subst (λ (s : Bytes × Bytes). key_prefix (a ∷ b ∷ s.0) s.1 ≡ true) (digit_stop c r over)
          h in
      let (nine_is, two_is) = two_digits a b (c ∷ r) h' in
      rw (nine_is, two_is) (KeyFragment.fields c r (field_there c r (rw (nine_is, two_is) at h')))
]

behind_digit :
    (a : ℕ) (r : Bytes)
    → key_prefix (a ∷ (span_digits r).0) (span_digits r).1 ≡ true
    → KeyFragment (esc ∷ b'[' ∷ a ∷ r)
unfolding span_digits key_prefix is_prefix_of
behind_digit a [] h = let nine_is : a ≡ b'9' = ground arith in rw nine_is KeyFragment.nine
behind_digit a (b ∷ r) h = elim (Bool-cases (is_digit b)) [
  | inl more ↦
      behind_digits a b r
        (subst (λ (s : Bytes × Bytes). key_prefix (a ∷ s.0) s.1 ≡ true) (digit_on b r more) h)
  | inr over ↦
      let h' : key_prefix (a ∷ []) (b ∷ r) ≡ true =
        subst (λ (s : Bytes × Bytes). key_prefix (a ∷ s.0) s.1 ≡ true) (digit_stop b r over) h in
      cc
]

behind_bracket : (r : Bytes) → fits_key r ≡ true → KeyFragment (esc ∷ b'[' ∷ r)
unfolding span_digits key_prefix
behind_bracket [] h = KeyFragment.bracket
behind_bracket (a ∷ r) h = elim (Bool-cases (is_digit a)) [
  | inl more ↦
      behind_digit a r
        (subst (λ (s : Bytes × Bytes). key_prefix s.0 s.1 ≡ true) (digit_on a r more) h)
  | inr over ↦
      let h' : key_prefix [] (a ∷ r) ≡ true =
        subst (λ (s : Bytes × Bytes). key_prefix s.0 s.1 ≡ true) (digit_stop a r over) h in
      cc
]

pub prefix-KeyFragment :
    (behind : Bytes) → ctrl_backslash_prefix (esc ∷ behind) ≡ true → KeyFragment (esc ∷ behind)
unfolding ctrl_backslash_prefix
prefix-KeyFragment [] h = KeyFragment.escape
prefix-KeyFragment (c ∷ rest) h = elim (Bool-cases (c == b'[')) [
  | inl opens ↦
      let is : c ≡ b'[' = ground arith in
      let h' : fits_key rest ≡ true = rw opens at h in rw is (behind_bracket rest h')
  | inr other ↦ cc (rw other at h)
]
