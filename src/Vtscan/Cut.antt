-- ===== src/Vtscan/Cut.antt =====
-- What `SafeCut` computes: the largest cut at or before the target.
use bgx.Base.Int.{pos}
use bgx.Base.{
  ℕ, zero, suc, ◌+◌, min, ◌≤◌, ◌<◌, ◌≡◌, refl, ap, ◌∙◌, true, false, [], ◌∷◌, Option, none, some,
  inl, inr, Bytes, arith, length, take, drop, Bool-cases, ltb, tests, if◌then◌else◌,
}
use bgx.Vtscan.{Scanner, at_ground, step, advance, splits_rune, note, safe_cut_loop, safe_cut}

-- `n` bytes can be cut off: the parser is then at ground, and what follows begins no
-- continuation byte. (The source does not look at the byte that follows the offset 0.)
pub record IsCut (s : Scanner) (buf : Bytes) (n : ℕ) : Type 0 where
  pub inside : n ≤ length buf
  pub grounded : at_ground (advance s (take n buf)) ≡ true
  pub whole_rune : 0 < n → splits_rune (drop n buf) ≡ false

-- No cut of at least one byte ends at or before `limit`, counted from `off`.
abbrev NoneFrom : Scanner → Bytes → ℕ → ℕ → ℕ → Type 0
NoneFrom s buf off limit least = (m : ℕ) → least < m → off + m ≤ limit → ¬ IsCut s buf m

data LoopResult (s : Scanner) (buf : Bytes) (off limit : ℕ) (best r : Option ℕ) : Type 0 where
  kept : r ≡ best → NoneFrom s buf off limit 0 → LoopResult s buf off limit best r
  found :
      (k : ℕ)
      → r ≡ some (off + k)
      → 0 < k
      → off + k ≤ limit
      → IsCut s buf k
      → NoneFrom s buf off limit k
      → LoopResult s buf off limit best r

-- A cut of the rest is a cut of the whole, one byte further on.
pub IsCut-cons :
    (s : Scanner) (b : ℕ) (p : Bytes) (n : ℕ)
    → 0 < n
    → IsCut (step s b) p n
    → IsCut s (b ∷ p) (suc n)
unfolding advance
IsCut-cons s b p n h c = record {
  inside = omega (arith, c.inside);
  grounded = c.grounded;
  whole_rune = λ _. c.whole_rune h;
}

pub IsCut-uncons :
    (s : Scanner) (b : ℕ) (p : Bytes) (n : ℕ) → IsCut s (b ∷ p) (suc n) → IsCut (step s b) p n
unfolding advance
IsCut-uncons s b p n c = record {
  inside = omega (arith, c.inside);
  grounded = c.grounded;
  whole_rune = λ h. c.whole_rune (omega arith);
}

pub IsCut-one :
    (s : Scanner) (b : ℕ) (p : Bytes)
    → splits_rune p ≡ false
    → at_ground (step s b) ≡ true
    → IsCut s (b ∷ p) 1
unfolding advance
IsCut-one s b p h g = record { inside = omega arith; grounded = g; whole_rune = λ _. h }

-- The later rounds speak of a byte less.
NoneFrom-cons :
    (s : Scanner) (b : ℕ) (p : Bytes) (off limit k : ℕ)
    → NoneFrom (step s b) p (off + 1) limit k
    → NoneFrom s (b ∷ p) off limit (suc k)
NoneFrom-cons s b p off limit k rest zero lt le c = absurd (omega arith)
NoneFrom-cons s b p off limit k rest (suc m) lt le c =
    rest m (omega arith) (omega arith) (IsCut-uncons s b p m c)

NoneFrom-zero :
    (s : Scanner) (b : ℕ) (p : Bytes) (off limit : ℕ)
    → ¬ IsCut s (b ∷ p) 1
    → NoneFrom s (b ∷ p) off limit 1
    → NoneFrom s (b ∷ p) off limit 0
NoneFrom-zero s b p off limit h rest zero lt le c = absurd (omega arith)
NoneFrom-zero s b p off limit h rest (suc zero) lt le c = h c
NoneFrom-zero s b p off limit h rest (suc (suc m)) lt le c = rest (suc (suc m)) (omega arith) le c

-- What the later rounds found, put together with the round for the byte `b`.
LoopResult-cons :
    (s : Scanner) (b : ℕ) (p : Bytes) (off limit : ℕ) (best : Option ℕ) {r : Option ℕ}
    → off + 1 ≤ limit
    → LoopResult (step s b) p (off + 1) limit (note (step s b) p (off + 1) best) r
    → LoopResult s (b ∷ p) off limit best r
unfolding advance
LoopResult-cons s b p off limit best h (found k e k_pos k_le cut rest) =
    found (suc k) (rw e (ap some (omega arith))) (omega arith) (omega arith)
      (IsCut-cons s b p k k_pos cut) (NoneFrom-cons s b p off limit k rest)
LoopResult-cons s b p off limit best {r} h (kept e rest) = elim (Bool-cases (splits_rune p)) [
  | inl splits ↦
      kept (e ∙ rw splits)
        (NoneFrom-zero s b p off limit (λ c. cc (c.whole_rune (omega arith))) above)
  | inr whole ↦ elim (Bool-cases (at_ground (step s b))) [
    | inl grounded ↦
        found 1 (e ∙ rw (whole, grounded)) (omega arith) h (IsCut-one s b p whole grounded) above
    | inr inside ↦
        kept (e ∙ rw (whole, inside)) (NoneFrom-zero s b p off limit (λ c. cc c.grounded) above)
  ]
]
  where
    above : NoneFrom s (b ∷ p) off limit 1
    above = NoneFrom-cons s b p off limit 0 rest

safe_cut_loop-LoopResult :
    (s : Scanner) (buf : Bytes) (off limit : ℕ) (best : Option ℕ)
    → LoopResult s buf off limit best (safe_cut_loop s buf off limit best)
unfolding safe_cut_loop
safe_cut_loop-LoopResult s [] off limit best = kept refl (λ m lt le c. omega (arith, c.inside))
safe_cut_loop-LoopResult s (b ∷ p) off limit best = elim (Bool-cases (ltb limit (off + 1))) [
  | inl past ↦ rw past (kept refl (λ m lt le c. absurd (omega tests)))
  | inr more ↦ rw more (
      LoopResult-cons s b p off limit best (ground arith)
        (safe_cut_loop-LoopResult (step s b) p (off + 1) limit _))
]

-- `r` is the largest cut at or before the target, or there is none.
abbrev pub LargestCut : Scanner → Bytes → ℕ → Option ℕ → Type 0
LargestCut s buf target none = (m : ℕ) → m ≤ target → ¬ IsCut s buf m
LargestCut s buf target (some n) =
    (n ≤ target) × IsCut s buf n × ((m : ℕ) → n < m → m ≤ target → ¬ IsCut s buf m)

-- A cut at or before the target is inside the buffer, so the clamped target loses none.
NoneFrom-clamped :
    (s : Scanner) (buf : Bytes) (target k : ℕ)
    → NoneFrom s buf 0 (min target (length buf)) k
    → (m : ℕ) → k < m
    → m ≤ target
    → ¬ IsCut s buf m
NoneFrom-clamped s buf target k rest m lt le c = rest m lt (omega (arith, c.inside)) c

pub IsCut-zero : (s : Scanner) (buf : Bytes) → at_ground s ≡ true → IsCut s buf 0
unfolding advance
IsCut-zero s buf g = record {
  inside = omega arith;
  grounded = g;
  whole_rune = λ h. absurd (omega arith);
}

none-zero :
    (s : Scanner) (buf : Bytes) (target : ℕ)
    → at_ground s ≡ false
    → ((m : ℕ) → 0 < m → m ≤ target → ¬ IsCut s buf m)
    → (m : ℕ) → m ≤ target
    → ¬ IsCut s buf m
unfolding advance
none-zero s buf target g rest zero le c = cc c.grounded
none-zero s buf target g rest (suc m) le c = rest (suc m) (omega arith) le c

LoopResult-LargestCut :
    (s : Scanner) (buf : Bytes) (target : ℕ) {r : Option ℕ}
    → LoopResult s buf 0 (min target (length buf)) (if at_ground s then some 0 else none) r
    → LargestCut s buf target r
LoopResult-LargestCut s buf target (found k e k_pos k_le cut rest) =
    let e' : 0 + k ≡ k = omega arith in
    rw (e, e') (omega arith, cut, NoneFrom-clamped s buf target k rest)
LoopResult-LargestCut s buf target (kept e rest) = elim (Bool-cases (at_ground s)) [
  | inl grounded ↦
      rw (e, grounded)
        (omega arith, IsCut-zero s buf grounded, NoneFrom-clamped s buf target 0 rest)
  | inr inside ↦
      rw (e, inside) (none-zero s buf target inside (NoneFrom-clamped s buf target 0 rest))
]

-- `SafeCut` returns the largest cut at or before a target that is not negative, and -1 exactly
-- when there is none.
pub safe_cut-LargestCut :
    (s : Scanner) (buf : Bytes) (target : ℕ) → LargestCut s buf target (safe_cut s buf (pos target))
unfolding safe_cut
safe_cut-LargestCut s buf target =
    LoopResult-LargestCut s buf target (safe_cut_loop-LoopResult s buf 0 _ _)
