-- ===== src/Scrollback/Store/Evict.antt =====
-- What the retained chunks hold, and what `evict` drops of it.
use bgx.Base.{
  ℕ, ◌-◌, ◌≤◌, ◌≡◌, refl, sym, ap, ◌∙◌, ◌⊎◌, inl, inr, List, [], ◌∷◌, ◌++◌, Bytes, leb, tests,
  length, length-append, arith, Bool-cases, append-nil, append_assoc,
}
use bgx.Vtscan.Valid.{advance-append}
use bgx.Vtscan.{initial, advance}
use bgx.Scrollback.Backend.{Backend, Zstd}
use bgx.Scrollback.Store.{Chunk, evict_loop, decode_chunk, decode_chunks}

module _ (b : Backend) (z : Zstd) where
  -- A chunk that reads back as `raw`, a stretch between two points at ground.
  pub record ChunkIs (c : Chunk b.Handle) (raw : Bytes) : Type 0 where
    pub decodes : decode_chunk b z c ≡ (raw, 0)
    pub size : c.raw_len ≡ length raw
    pub grounded : advance initial raw ≡ initial

  abbrev pub Holds : List (Chunk b.Handle) → Bytes → Type 0
  Holds [] p = p ≡ []
  Holds (c ∷ cs) p =
      (raw : Bytes) × (rest : Bytes) × ChunkIs c raw × Holds cs rest × (p ≡ raw ++ rest)

  pub decode_chunks-Holds :
      (cs : List (Chunk b.Handle)) (p : Bytes) → Holds cs p → decode_chunks b z cs ≡ (p, 0)
  unfolding decode_chunks
  decode_chunks-Holds [] p h = rw h refl
  decode_chunks-Holds (c ∷ cs) p (raw, rest, is, holds, e) =
      rw (is.decodes, decode_chunks-Holds cs rest holds, e) refl

  pub Holds-append :
      (cs : List (Chunk b.Handle)) (p : Bytes) (c : Chunk b.Handle) (raw : Bytes)
      → Holds cs p
      → ChunkIs c raw
      → Holds (cs ++ c ∷ []) (p ++ raw)
  Holds-append [] p c raw h is = (raw, [], is, refl, rw h (sym (append-nil raw)))
  Holds-append (d ∷ cs) p c raw (first, rest, is', holds, e) is = (
    first,
    rest ++ raw,
    is',
    Holds-append cs rest c raw holds is,
    rw e (append_assoc first rest raw),
  )

  pub advance-Holds :
      (cs : List (Chunk b.Handle)) (p : Bytes) → Holds cs p → advance initial p ≡ initial
  unfolding advance
  advance-Holds [] p h = rw h refl
  advance-Holds (c ∷ cs) p (raw, rest, is, holds, e) =
      rw (e, advance-append initial raw rest, is.grounded) (advance-Holds cs rest holds)

  -- The chunks `left` hold a suffix of `p`; if anything was dropped, at least `tail_size` bytes are
  -- left.
  pub record Evicted (tail_size : ℕ) (p : Bytes) (left : List (Chunk b.Handle)) (bytes : ℕ)
      : Type 0 where
    pub lost : Bytes
    pub rest : Bytes
    pub splits : p ≡ lost ++ rest
    pub holds : Holds left rest
    pub counted : bytes ≡ length rest
    pub grounded : advance initial lost ≡ initial
    pub enough : (lost ≡ []) ⊎ (tail_size ≤ bytes)

  Evicted-nothing :
      (tail_size : ℕ) (cs : List (Chunk b.Handle)) (p : Bytes) (bytes : ℕ)
      → Holds cs p
      → bytes ≡ length p
      → Evicted tail_size p cs bytes
  unfolding advance
  Evicted-nothing tail_size cs p bytes h n = record {
    lost = [];
    rest = p;
    splits = refl;
    holds = h;
    counted = n;
    grounded = refl;
    enough = inl refl;
  }

  Evicted-cons :
      (tail_size : ℕ) (raw rest : Bytes) {left : List (Chunk b.Handle)} {bytes : ℕ}
      → advance initial raw ≡ initial
      → tail_size ≤ length rest
      → Evicted tail_size rest left bytes
      → Evicted tail_size (raw ++ rest) left bytes
  Evicted-cons tail_size raw rest g le e = record {
    lost = raw ++ e.lost;
    rest = e.rest;
    splits = ap (◌++◌ raw) e.splits ∙ sym (append_assoc raw e.lost e.rest);
    holds = e.holds;
    counted = e.counted;
    grounded = rw (advance-append initial raw e.lost, g) e.grounded;
    enough = elim e.enough [
      | inl none_lost ↦
          let same : rest ≡ e.rest = e.splits ∙ ap (λ (t : Bytes). t ++ e.rest) none_lost in
          inr (omega (arith, e.counted, ap (λ (t : Bytes). length t) same))
      | inr kept ↦ inr kept
    ];
  }

  pub evict_loop-Evicted :
      (tail_size : ℕ) (cs : List (Chunk b.Handle)) (p : Bytes) (bytes errs : ℕ)
      → Holds cs p
      → bytes ≡ length p
      → let left = evict_loop b z tail_size cs bytes errs in
        Evicted tail_size p left.chunks left.bytes
  unfolding evict_loop
  evict_loop-Evicted tail_size [] p bytes errs h n = Evicted-nothing tail_size [] p bytes h n
  evict_loop-Evicted tail_size (c ∷ []) p bytes errs h n =
      Evicted-nothing tail_size (c ∷ []) p bytes h n
  evict_loop-Evicted tail_size (c ∷ d ∷ r) p bytes errs (raw, rest, is, holds, e) n =
      elim (Bool-cases (leb tail_size (bytes - c.raw_len))) [
        | inl more ↦
            let counted : bytes - c.raw_len ≡ length rest =
              omega (arith, is.size, ap (λ (t : Bytes). length t) e, length-append raw rest) in
            let later =
              evict_loop-Evicted tail_size (d ∷ r) rest (bytes - c.raw_len) _ holds counted in
            rw (more, e) (Evicted-cons tail_size raw rest is.grounded (omega tests) later)
        | inr stop ↦
            rw stop (Evicted-nothing tail_size (c ∷ d ∷ r) p bytes (raw, rest, is, holds, e) n)
      ]
