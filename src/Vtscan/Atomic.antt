-- ===== src/Vtscan/Atomic.antt =====
-- Pieces of a stream that the scanner is away from ground inside of and back at ground behind.
use bgx.Base.{
  ℕ, zero, suc, ◌+◌, ◌≤◌, ◌<◌, ◌≡◌, refl, ◌∙◌, sym, ap, true, false, List, [], ◌∷◌, ◌++◌, some, inl,
  inr, Bytes, arith, length, take, All, flatten, ltb, tests, Bool-cases, length-append,
  take-append_add, take-append_le, ◌-◌,
}
use bgx.Base.Int.{pos}
use bgx.Vtscan.Cut.{safe_cut-LargestCut}
use bgx.Vtscan.Valid.{advance-append}
use bgx.Vtscan.{Scanner, initial, at_ground, step, advance, safe_cut}

-- From a state within a sequence, `p` ends the sequence with its last byte and not before.
pub record Finishes (s : Scanner) (p : Bytes) : Type 0 where
  pub ends : advance s p ≡ initial
  pub inside : (m : ℕ) → m < length p → at_ground (advance s (take m p)) ≡ false

-- A piece that a stream may be cut before and behind, and not within.
pub record IsAtomic (p : Bytes) : Type 0 where
  pub ends : advance initial p ≡ initial
  pub inside : (m : ℕ) → 0 < m → m < length p → at_ground (advance initial (take m p)) ≡ false

pub Finishes-cons :
    (s : Scanner) (b : ℕ) (p : Bytes)
    → at_ground s ≡ false
    → Finishes (step s b) p
    → Finishes s (b ∷ p)
unfolding advance
Finishes-cons s b p g f = record { ends = f.ends; inside = within_sequence }
  where
    within_sequence : (m : ℕ) → m < suc (length p) → at_ground (advance s (take m (b ∷ p))) ≡ false
    within_sequence zero lt = g
    within_sequence (suc m) lt = f.inside m (omega arith)

pub Finishes-one :
    (s : Scanner) (b : ℕ) → at_ground s ≡ false → step s b ≡ initial → Finishes s (b ∷ [])
unfolding advance
Finishes-one s b g e =
    Finishes-cons s b [] g (record { ends = e; inside = λ m lt. absurd (omega arith) })

pub IsAtomic-cons : (b : ℕ) (p : Bytes) → Finishes (step initial b) p → IsAtomic (b ∷ p)
unfolding advance
IsAtomic-cons b p f = record { ends = f.ends; inside = within_sequence }
  where
    within_sequence :
        (m : ℕ) → 0 < m → m < suc (length p) → at_ground (advance initial (take m (b ∷ p))) ≡ false
    within_sequence zero h lt = absurd (omega arith)
    within_sequence (suc m) h lt = f.inside m (omega arith)

-- The stream that the pieces make up.
abbrev pub AllAtomic : List Bytes → Type 0
AllAtomic = All IsAtomic

pub advance-AllAtomic : (ps : List Bytes) → AllAtomic ps → advance initial (flatten ps) ≡ initial
unfolding advance
advance-AllAtomic [] h = refl
advance-AllAtomic (p ∷ ps) (a, h) =
    advance-append initial p (flatten ps) ∙ rw a.ends (advance-AllAtomic ps h)

-- Either the offset `n` is within the first piece, or it is `m` behind it.
data Place (p : Bytes) (n : ℕ) : Type 0 where
  before : n < length p → Place p n
  after : (m : ℕ) → n ≡ length p + m → Place p n

place : (p : Bytes) (n : ℕ) → Place p n
place p n = elim (Bool-cases (ltb n (length p))) [
  | inl lt ↦ before (omega tests)
  | inr ge ↦ after (n - length p) (ground arith)
]

first_piece :
    (p rest : Bytes) (n : ℕ)
    → IsAtomic p
    → n < length p
    → at_ground (advance initial (take n (p ++ rest))) ≡ true
    → n ≡ 0
first_piece p rest zero a lt g = refl
first_piece p rest (suc n) a lt g =
    cc (a.inside (suc n) (omega arith) lt, rw (take-append_le (suc n) p rest (omega arith)) at g)

advance_behind :
    (p rest : Bytes) (m : ℕ)
    → IsAtomic p
    → advance initial (take (length p + m) (p ++ rest)) ≡ advance initial (take m rest)
advance_behind p rest m a = rw (take-append_add p rest m, advance-append, a.ends)

-- A stream of pieces is at ground only between two of them.
pub at_ground-boundary :
    (ps : List Bytes) (n : ℕ)
    → AllAtomic ps
    → n ≤ length (flatten ps)
    → at_ground (advance initial (take n (flatten ps))) ≡ true
    → (k : ℕ) × (n ≡ length (flatten (take k ps)))
at_ground-boundary [] n h le g = (0, omega arith)
at_ground-boundary (p ∷ ps) n (a, h) le g = elim (place p n) [
  | before lt ↦ (0, first_piece p (flatten ps) n a lt g)
  | after m e ↦
      let le' : m ≤ length (flatten ps) = omega (arith, length-append p (flatten ps)) in
      let (k, e') =
        at_ground-boundary ps m h le' (rw (e, advance_behind p (flatten ps) m a) at g) in
      (suc k, e ∙ ap (λ (t : ℕ). length p + t) e' ∙ sym (length-append p (flatten (take k ps))))
]

-- On a stream of pieces, each a whole control sequence, control string, rune or other piece that
-- the scanner passes in one go, `SafeCut` cuts between two pieces, at or before the target.
pub safe_cut-boundary :
    (ps : List Bytes) (target : ℕ) {n : ℕ}
    → AllAtomic ps
    → safe_cut initial (flatten ps) (pos target) ≡ some n
    → (k : ℕ) × (n ≡ length (flatten (take k ps))) × (n ≤ target)
safe_cut-boundary ps target h e =
    let (le, cut, _) = rw e at (safe_cut-LargestCut initial (flatten ps) target) in
    let (k, e') = at_ground-boundary ps _ h cut.inside cut.grounded in (k, e', le)
