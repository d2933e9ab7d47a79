-- ===== src/Daemon/Session/Size.antt =====
-- The window size that the clients share.
use bgx.Base.{
  ℕ, ◌≤◌, ◌<◌, ◌≡◌, refl, sym, ◌∙◌, true, false, ◌||◌, ◌⊎◌, inl, inr, List, [], ◌∷◌, Option, none,
  some, ltb, ◌==◌, tests, if◌then◌else◌, All, Some, arith, Bool-cases,
}
use bgx.Daemon.Terminal.{Emulator}
use bgx.Daemon.Session.{Session, Member, min_size_loop, min_size}

-- A client that has reported its size.
abbrev pub IsKnown : Member → Type 0
IsKnown m = (0 < m.attacher.cols) × (0 < m.attacher.rows)

-- Each dimension is at most that of every known client, and is that of one of them.
pub record Smallest (ms : List Member) (cols rows : ℕ) : Type 0 where
  pub below : All (λ m. IsKnown m → (cols ≤ m.attacher.cols) × (rows ≤ m.attacher.rows)) ms
  pub cols_met : Some (λ m. IsKnown m × (m.attacher.cols ≡ cols)) ms
  pub rows_met : Some (λ m. IsKnown m × (m.attacher.rows ≡ rows)) ms

-- The loop behind `best`: no more than it, and it or one of the clients in each dimension.
record Found (ms : List Member) (cols0 rows0 cols rows : ℕ) : Type 0 where
  cols_le : cols ≤ cols0
  rows_le : rows ≤ rows0
  below : All (λ m. IsKnown m → (cols ≤ m.attacher.cols) × (rows ≤ m.attacher.rows)) ms
  cols_met : (cols ≡ cols0) ⊎ Some (λ m. IsKnown m × (m.attacher.cols ≡ cols)) ms
  rows_met : (rows ≡ rows0) ⊎ Some (λ m. IsKnown m × (m.attacher.rows ≡ rows)) ms

abbrev smaller : ℕ → ℕ → ℕ
smaller new old = if ltb new old then new else old

smaller_lem :
    (new old : ℕ)
    → (smaller new old ≤ new)
      × (smaller new old ≤ old)
      × ((smaller new old ≡ old) ⊎ (smaller new old ≡ new))
smaller_lem new old = elim (Bool-cases (ltb new old)) [
  | inl lt ↦ rw lt (omega arith, omega tests, inr refl)
  | inr ge ↦ rw ge (ground arith, omega arith, inl refl)
]

zero-IsKnown : (m : Member) → (m.attacher.cols == 0 || m.attacher.rows == 0) ≡ true → ¬ IsKnown m
zero-IsKnown m h k = ground arith

nonzero-IsKnown : (m : Member) → (m.attacher.cols == 0 || m.attacher.rows == 0) ≡ false → IsKnown m
nonzero-IsKnown m h = ground arith

-- The client's own size, or an earlier one, stands unless a later one is smaller.
met_later :
    {K L : Type 0} {n old new own : ℕ}
    → K
    → (new ≡ old) ⊎ (new ≡ own)
    → (n ≡ new) ⊎ L
    → (n ≡ old) ⊎ ((K × (own ≡ n)) ⊎ L)
met_later k first (inr later) = inr (inr later)
met_later k (inl e) (inl e') = inl (e' ∙ e)
met_later k (inr e) (inl e') = inr (inl (k, sym (e' ∙ e)))

min_size_loop-Found :
    (ms : List Member) (cols0 rows0 : ℕ)
    → (cols : ℕ) × (rows : ℕ) × (min_size_loop ms (some (cols0, rows0)) ≡ some (cols, rows))
      × Found ms cols0 rows0 cols rows
unfolding min_size_loop
min_size_loop-Found [] cols0 rows0 = (
  cols0,
  rows0,
  refl,
  record {
    cols_le = omega arith;
    rows_le = omega arith;
    below = tt;
    cols_met = inl refl;
    rows_met = inl refl;
  },
)
min_size_loop-Found (m ∷ ms) cols0 rows0 =
    elim (Bool-cases (m.attacher.cols == 0 || m.attacher.rows == 0)) [
      | inl unknown ↦
          let (cols, rows, e, f) = min_size_loop-Found ms cols0 rows0 in
          rw unknown (
            cols,
            rows,
            e,
            record {
              cols_le = f.cols_le;
              rows_le = f.rows_le;
              below = (λ k. absurd (zero-IsKnown m unknown k), f.below);
              cols_met = elim f.cols_met [ inl same ↦ inl same | inr later ↦ inr (inr later) ];
              rows_met = elim f.rows_met [ inl same ↦ inl same | inr later ↦ inr (inr later) ];
            },
          )
      | inr known ↦
          let c = smaller_lem m.attacher.cols cols0 in
          let d = smaller_lem m.attacher.rows rows0 in
          let (cols, rows, e, f) =
            min_size_loop-Found ms (smaller m.attacher.cols cols0)
              (smaller m.attacher.rows rows0) in
          rw known (
            cols,
            rows,
            e,
            record {
              cols_le = omega (arith, f.cols_le, c.1);
              rows_le = omega (arith, f.rows_le, d.1);
              below =
                  (λ k. (omega (arith, f.cols_le, c.0), omega (arith, f.rows_le, d.0)), f.below);
              cols_met = met_later (nonzero-IsKnown m known) c.2 f.cols_met;
              rows_met = met_later (nonzero-IsKnown m known) d.2 f.rows_met;
            },
          )
    ]

abbrev pub MinSize : List Member → Option (ℕ × ℕ) → Type 0
MinSize ms none = All (λ m. ¬ IsKnown m) ms
MinSize ms (some (cols, rows)) = Smallest ms cols rows

MinSize-cons :
    (m : Member) (ms : List Member) (r : Option (ℕ × ℕ))
    → ¬ IsKnown m
    → MinSize ms r
    → MinSize (m ∷ ms) r
MinSize-cons m ms none not_known h = (not_known, h)
MinSize-cons m ms (some (cols, rows)) not_known h = record {
  below = (λ k. absurd (not_known k), h.below);
  cols_met = inr h.cols_met;
  rows_met = inr h.rows_met;
}

min_size_loop-MinSize : (ms : List Member) → MinSize ms (min_size_loop ms none)
unfolding min_size_loop
min_size_loop-MinSize [] = tt
min_size_loop-MinSize (m ∷ ms) = elim (Bool-cases (m.attacher.cols == 0 || m.attacher.rows == 0)) [
  | inl unknown ↦
      rw unknown (MinSize-cons m ms _ (zero-IsKnown m unknown) (min_size_loop-MinSize ms))
  | inr known ↦
      let (cols, rows, e, f) = min_size_loop-Found ms m.attacher.cols m.attacher.rows in
      rw (known, e)
        (record {
          below = (λ k. (f.cols_le, f.rows_le), f.below);
          cols_met = elim f.cols_met [
            | inl same ↦ inl (nonzero-IsKnown m known, sym same)
            | inr later ↦ inr later
          ];
          rows_met = elim f.rows_met [
            | inl same ↦ inl (nonzero-IsKnown m known, sym same)
            | inr later ↦ inr later
          ];
        })
]

-- `minSize` gives in each dimension the least that a client has reported, and no size exactly if no
-- client has reported one.
pub min_size-MinSize : {e : Emulator} (s : Session e) → MinSize s.attachers (min_size s)
min_size-MinSize s = min_size_loop-MinSize s.attachers
