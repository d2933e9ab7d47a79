-- ===== src/Scrollback/Boundary/Nearest.antt =====
-- What `boundaryCut` and `boundaryTrim` find.
use bgx.Base.Int.{pos}
use bgx.Base.{
  ℕ, zero, suc, ◌+◌, ◌≤◌, ◌<◌, ◌≡◌, refl, ap, ◌∙◌, true, false, ◌⊎◌, inl, inr, [], ◌∷◌, Option,
  none, some, Bytes, leb, tests, arith, Bool-cases,
}
use bgx.Vtscan.Cut.{IsCut, IsCut-cons, IsCut-uncons, IsCut-one, IsCut-zero, safe_cut-LargestCut}
use bgx.Vtscan.{Scanner, initial, at_ground, advance, step, splits_rune, safe_cut}
use bgx.Scrollback.Boundary.{boundary_cut_loop, boundary_cut, boundary_trim}

-- No cut between two offsets, counted from `off`: behind `least` and at or before `limit`.
abbrev NoneWithin : Scanner → Bytes → ℕ → ℕ → ℕ → Type 0
NoneWithin sc buf off least limit = (m : ℕ) → least < m → off + m ≤ limit → ¬ IsCut sc buf m

-- No cut behind no byte and before `k`.
abbrev NoneBefore : Scanner → Bytes → ℕ → Type 0
NoneBefore sc buf k = (m : ℕ) → 0 < m → m < k → ¬ IsCut sc buf m

abbrev NoCut : Scanner → Bytes → Type 0
NoCut sc buf = (m : ℕ) → 0 < m → ¬ IsCut sc buf m

data LoopResult (sc : Scanner) (buf : Bytes) (off target : ℕ) (best r : Option ℕ) : Type 0 where
  kept :
      r ≡ best
      → NoneWithin sc buf off 0 target
      → (best ≡ none → NoCut sc buf)
      → LoopResult sc buf off target best r
  below :
      (k : ℕ)
      → r ≡ some (off + k)
      → 0 < k
      → off + k ≤ target
      → IsCut sc buf k
      → NoneWithin sc buf off k target
      → LoopResult sc buf off target best r
  beyond :
      (k : ℕ)
      → best ≡ none
      → r ≡ some (off + k)
      → 0 < k
      → target < off + k
      → IsCut sc buf k
      → NoneBefore sc buf k
      → LoopResult sc buf off target best r

module _ (sc : Scanner) (b : ℕ) (p : Bytes) (off target : ℕ) where
  NoneWithin-cons :
      (k : ℕ)
      → NoneWithin (step sc b) p (off + 1) k target
      → NoneWithin sc (b ∷ p) off (suc k) target
  NoneWithin-cons k h zero lt le c = absurd (omega arith)
  NoneWithin-cons k h (suc m) lt le c = h m (omega arith) (omega arith) (IsCut-uncons sc b p m c)

  NoneWithin-zero :
      ¬ IsCut sc (b ∷ p) 1 → NoneWithin sc (b ∷ p) off 1 target → NoneWithin sc (b ∷ p) off 0 target
  NoneWithin-zero one h zero lt le c = absurd (omega arith)
  NoneWithin-zero one h (suc zero) lt le c = one c
  NoneWithin-zero one h (suc (suc m)) lt le c = h (suc (suc m)) (omega arith) le c

  NoCut-cons : ¬ IsCut sc (b ∷ p) 1 → NoCut (step sc b) p → NoCut sc (b ∷ p)
  NoCut-cons one h zero lt c = absurd (omega arith)
  NoCut-cons one h (suc zero) lt c = one c
  NoCut-cons one h (suc (suc m)) lt c = h (suc m) (omega arith) (IsCut-uncons sc b p (suc m) c)

  NoneBefore-cons :
      (k : ℕ) → ¬ IsCut sc (b ∷ p) 1 → NoneBefore (step sc b) p k → NoneBefore sc (b ∷ p) (suc k)
  NoneBefore-cons k one h zero lt le c = absurd (omega arith)
  NoneBefore-cons k one h (suc zero) lt le c = one c
  NoneBefore-cons k one h (suc (suc m)) lt le c =
      h (suc m) (omega arith) (omega arith) (IsCut-uncons sc b p (suc m) c)

  -- The byte ends no cut: what the later rounds find stands.
  skip_byte :
      (best : Option ℕ) {r : Option ℕ}
      → ¬ IsCut sc (b ∷ p) 1
      → LoopResult (step sc b) p (off + 1) target best r
      → LoopResult sc (b ∷ p) off target best r
  skip_byte best one (kept e within_target all) =
      kept e (NoneWithin-zero one (NoneWithin-cons 0 within_target)) (λ n. NoCut-cons one (all n))
  skip_byte best one (below k e k_pos le cut later) =
      below (suc k) (e ∙ ap some (omega arith)) (omega arith) (omega arith)
        (IsCut-cons sc b p k k_pos cut) (NoneWithin-cons k later)
  skip_byte best one (beyond k n e k_pos gt cut before) =
      beyond (suc k) n (e ∙ ap some (omega arith)) (omega arith) (omega arith)
        (IsCut-cons sc b p k k_pos cut) (NoneBefore-cons k one before)

  -- The byte ends a cut at or before the target.
  take_byte :
      (best : Option ℕ) {r : Option ℕ}
      → IsCut sc (b ∷ p) 1
      → off + 1 ≤ target
      → LoopResult (step sc b) p (off + 1) target (some (off + 1)) r
      → LoopResult sc (b ∷ p) off target best r
  take_byte best one le (kept e within_target all) =
      below 1 e (omega arith) le one (NoneWithin-cons 0 within_target)
  take_byte best one le (below k e k_pos le' cut later) =
      below (suc k) (e ∙ ap some (omega arith)) (omega arith) (omega arith)
        (IsCut-cons sc b p k k_pos cut) (NoneWithin-cons k later)
  take_byte best one le (beyond k n e k_pos gt cut before) = cc

  -- The byte ends a cut behind the target.
  past_target :
      (best : Option ℕ)
      → IsCut sc (b ∷ p) 1
      → target < off + 1
      → LoopResult sc
          (b ∷ p)
          off
          target
          best
          (elim best [ some n ↦ some n | none ↦ some (off + 1) ])
  past_target (some n) one gt = kept refl (λ m lt le c. absurd (omega arith)) (λ e. cc)
  past_target none one gt =
      beyond 1 refl refl (omega arith) gt one (λ m lt le c. absurd (omega arith))

not_one_splits : (sc : Scanner) (b : ℕ) (p : Bytes) → splits_rune p ≡ true → ¬ IsCut sc (b ∷ p) 1
not_one_splits sc b p h c = cc (c.whole_rune (omega arith))

not_one_inside :
    (sc : Scanner) (b : ℕ) (p : Bytes) → at_ground (step sc b) ≡ false → ¬ IsCut sc (b ∷ p) 1
unfolding advance
not_one_inside sc b p h c = cc c.grounded

boundary_cut_loop-LoopResult :
    (sc : Scanner) (buf : Bytes) (off target : ℕ) (best : Option ℕ)
    → LoopResult sc buf off target best (boundary_cut_loop sc buf off target best)
unfolding boundary_cut_loop
boundary_cut_loop-LoopResult sc [] off target best =
    kept refl (λ m lt le c. omega (arith, c.inside)) (λ e m lt c. omega (arith, c.inside))
boundary_cut_loop-LoopResult sc (b ∷ p) off target best = elim (Bool-cases (splits_rune p)) [
  | inl splits ↦ rw splits (
      skip_byte sc b p off target best (not_one_splits sc b p splits)
        (boundary_cut_loop-LoopResult (step sc b) p (off + 1) target best))
  | inr whole ↦ elim (Bool-cases (at_ground (step sc b))) [
    | inr inside ↦
        rw (whole, inside)
          (skip_byte sc b p off target best (not_one_inside sc b p inside)
            (boundary_cut_loop-LoopResult (step sc b) p (off + 1) target best))
    | inl grounded ↦ elim (Bool-cases (leb (off + 1) target)) [
      | inl le ↦
          rw (whole, grounded, le)
            (take_byte sc b p off target best (IsCut-one sc b p whole grounded) (omega tests)
              (boundary_cut_loop-LoopResult (step sc b) p (off + 1) target (some (off + 1))))
      | inr gt ↦
          rw (whole, grounded, gt)
            (past_target sc b p off target best (IsCut-one sc b p whole grounded) (ground arith))
    ]
  ]
]

-- The largest cut at or before the target, or else the first one behind it; none if there is none.
abbrev pub NearestCut : Bytes → ℕ → Option ℕ → Type 0
NearestCut buf target none = (m : ℕ) → 0 < m → ¬ IsCut initial buf m
NearestCut buf target (some n) =
    (0 < n)
    × IsCut initial buf n
    × (((n ≤ target) × ((m : ℕ) → n < m → m ≤ target → ¬ IsCut initial buf m))
        ⊎ ((target < n) × ((m : ℕ) → 0 < m → m < n → ¬ IsCut initial buf m)))

LoopResult-NearestCut :
    (buf : Bytes) (target : ℕ) {r : Option ℕ}
    → LoopResult initial buf 0 target none r
    → NearestCut buf target r
LoopResult-NearestCut buf target (kept e within_target all) = rw e (all refl)
LoopResult-NearestCut buf target (below k e k_pos le cut later) =
    let e' : 0 + k ≡ k = omega arith in
    rw (e, e') (k_pos, cut, inl (omega arith, λ m lt le'. later m lt (omega arith)))
LoopResult-NearestCut buf target (beyond k n e k_pos gt cut before) =
    let e' : 0 + k ≡ k = omega arith in rw (e, e') (k_pos, cut, inr (omega arith, before))

-- `boundaryCut` finds the largest cut at or before the target, or else the first cut behind it, and
-- -1 exactly when the buffer has no cut behind its first byte.
pub boundary_cut-NearestCut :
    (chunk_buf : Bytes) (target : ℕ) → NearestCut chunk_buf target (boundary_cut chunk_buf target)
unfolding boundary_cut
boundary_cut-NearestCut chunk_buf target =
    LoopResult-NearestCut chunk_buf target
      (boundary_cut_loop-LoopResult initial chunk_buf 0 target none)

-- `boundaryTrim` finds the largest cut at or before what is wanted: a fresh scanner can always cut
-- at 0, so the search never falls back to a cut behind it.
pub boundary_trim_lem :
    (buf : Bytes) (want : ℕ)
    → let n = boundary_trim buf want in
      (n ≤ want) × IsCut initial buf n × ((m : ℕ) → n < m → m ≤ want → ¬ IsCut initial buf m)
unfolding boundary_trim
boundary_trim_lem buf want = go (safe_cut initial buf (pos want)) refl
  where
    go :
        (r : Option ℕ)
        → safe_cut initial buf (pos want) ≡ r
        → let n = boundary_trim buf want in
          (n ≤ want) × IsCut initial buf n × ((m : ℕ) → n < m → m ≤ want → ¬ IsCut initial buf m)
    go none e = absurd (
        (rw e at (safe_cut-LargestCut initial buf want)) 0 (omega arith)
          (IsCut-zero initial buf refl))
    go (some n) e = rw (e, boundary_trim) (rw e at (safe_cut-LargestCut initial buf want))
