-- ===== src/Client/CtrlKey/Split.antt =====
-- What `feed` forwards and what it holds back.
use bgx.Base.{
  ℕ, ◌-◌, ◌≡◌, refl, sym, ap, ◌∙◌, true, false, [], ◌∷◌, ◌++◌, some, Bytes, arith, ◌⊎◌, inl, inr,
  length, take, drop, take-append-drop, length-append, drop-append, take-append, drop-length,
  Bool-cases, Option-cases, ◌==◌,
}
use native.Mathlib.Nat.{sub-zero}
use bgx.Client.CtrlKey.Fragment.{KeyFragment, prefix-KeyFragment}
use bgx.Client.CtrlKey.{
  esc, last_escape, ctrl_backslash_prefix, ctrl_backslash_suffix_len, DetachScanner, feed,
  is_ctrl_backslash,
}

-- The last ESC starts a suffix of the text.
pub record LastEscape (buf s : Bytes) : Type 0 where
  pub front : Bytes
  pub behind : Bytes
  pub splits : buf ≡ front ++ s
  pub starts : s ≡ esc ∷ behind

pub last_escape-LastEscape : (buf : Bytes) {s : Bytes} → last_escape buf ≡ some s → LastEscape buf s
unfolding last_escape
last_escape-LastEscape [] e = cc
last_escape-LastEscape (b ∷ r) {s} e = elim (Option-cases (last_escape r)) [
  | inl e' ↦ elim (Bool-cases (b == esc)) [
    | inl is_esc ↦ record { front = []; behind = r; splits = ground arith; starts = ground arith }
    | inr other ↦ cc (rw (e', other) at e)
  ]
  | inr (s', e') ↦
      let l = last_escape-LastEscape r e' in
      let same : s' ≡ s = cc (rw e' at e) in
      record {
        front = b ∷ l.front;
        behind = l.behind;
        splits = rw (← same) (ap (◌∷◌ b) l.splits);
        starts = sym same ∙ l.starts;
      }
]

-- Cutting off the suffix that starts with the last ESC leaves the front.
pub LastEscape-cut :
    {buf s : Bytes} (l : LastEscape buf s)
    → (drop (length buf - length s) buf ≡ s) × (take (length buf - length s) buf ≡ l.front)
LastEscape-cut {s} l =
    let e : length (l.front ++ s) - length s ≡ length l.front =
      omega (arith, length-append l.front s) in
    rw (l.splits, e) (drop-append l.front s, take-append l.front s)

abbrev cut : Bytes → ℕ
cut buf = length buf - ctrl_backslash_suffix_len buf

-- What is held back: nothing, or a fragment from the last ESC on.
pub data Held (buf : Bytes) : Type 0 where
  nothing : ctrl_backslash_suffix_len buf ≡ 0 → Held buf
  fragment :
      (s : Bytes)
      → last_escape buf ≡ some s
      → ctrl_backslash_prefix s ≡ true
      → ctrl_backslash_suffix_len buf ≡ length s
      → Held buf

pub held : (buf : Bytes) → Held buf
unfolding ctrl_backslash_suffix_len
held buf = elim (Option-cases (last_escape buf)) [
  | inl e ↦ nothing (rw e)
  | inr (s, e) ↦ elim (Bool-cases (ctrl_backslash_prefix s)) [
    | inl fits ↦ fragment s e fits (rw (e, fits))
    | inr other ↦ nothing (rw (e, other))
  ]
]

kept : (buf : Bytes) → (drop (cut buf) buf ≡ []) ⊎ KeyFragment (drop (cut buf) buf)
kept buf = elim (held buf) [
  | nothing e ↦ inl (rw (e, sub-zero) (drop-length buf))
  | fragment s e fits n ↦
      let l = last_escape-LastEscape buf e in
      inr (
        rw (n, (LastEscape-cut l).0)
          (rw l.starts (prefix-KeyFragment l.behind (rw l.starts at fits))))
]

-- `feed` detaches exactly if the buffered input holds the detach key, and then forwards and keeps
-- nothing. Otherwise what it forwards and what it keeps make up the input so far, and what it keeps is
-- empty or an ESC: alone, with `[` and a beginning of 92, or with `[92`, a colon or semicolon, and
-- anything behind.
pub feed_keeps :
    (d : DetachScanner) (p : Bytes)
    → ((feed d p).detach ≡ is_ctrl_backslash (d.pending ++ p))
      × ((feed d p).detach ≡ true → ((feed d p).forward ≡ []) × ((feed d p).scanner.pending ≡ []))
      × ((feed d p).detach ≡ false
          → ((feed d p).forward ++ (feed d p).scanner.pending ≡ d.pending ++ p)
            × (((feed d p).scanner.pending ≡ []) ⊎ KeyFragment (feed d p).scanner.pending))
unfolding feed
feed_keeps d p = elim (Bool-cases (is_ctrl_backslash (d.pending ++ p))) [
  | inl key ↦ rw key (refl, λ _. (refl, refl), λ h. cc)
  | inr other ↦ rw other (
    refl,
    λ h. cc,
    λ _. (take-append-drop (cut (d.pending ++ p)) (d.pending ++ p), kept (d.pending ++ p)),
  )
]
