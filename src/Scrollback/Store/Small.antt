-- ===== src/Scrollback/Store/Small.antt =====
-- A stream that fits neither a chunk nor the head nor the tail.
use bgx.Base.Int.{pos}
use bgx.Base.{
  ℕ, zero, suc, ◌-◌, ◌/◌, ◌≤◌, ◌<◌, ◌≡◌, refl, true, false, inl, inr, [], ◌∷◌, ◌++◌, none, Bytes,
  ltb, ◌==◌, ◌&&◌, tests, length, length-drop, take, drop, All, arith, Bool-cases,
}
use bgx.Vtscan.Cut.{IsCut}
use bgx.Vtscan.{initial, advance, step, splits_rune}
use bgx.Scrollback.Text.{append_truncation}
use bgx.Scrollback.Backend.{Backend, Zstd}
use bgx.Scrollback.Boundary.{boundary_trim}
use bgx.Scrollback.Boundary.Nearest.{boundary_trim_lem}
use bgx.Scrollback.Store.{
  Store, new_store_backend, write, take_pending, drain, process, process_round, cut_target,
  decode_chunks, trim_tail, snapshot,
}
use bgx.Scrollback.Store.Drain.{process-stop}

-- Printable ASCII.
abbrev pub IsPlain : ℕ → Type 0
IsPlain c = (0x20 ≤ c) × (c < 0x7f)

step-plain : (c : ℕ) → IsPlain c → step initial c ≡ initial
unfolding step
step-plain c h =
    let not_escape : (c == 0x1b) ≡ false = ground (arith, h.0) in
    let ascii : ltb c 0x80 ≡ true = ground (arith, h.1) in rw (not_escape, ascii) refl

advance-plain : (p : Bytes) → All IsPlain p → (n : ℕ) → advance initial (take n p) ≡ initial
unfolding advance
advance-plain [] h zero = refl
advance-plain [] h (suc n) = refl
advance-plain (c ∷ p) (plain, h) zero = refl
advance-plain (c ∷ p) (plain, h) (suc n) = rw (advance, step-plain c plain) (advance-plain p h n)

splits_rune-plain : (p : Bytes) → All IsPlain p → (n : ℕ) → splits_rune (drop n p) ≡ false
splits_rune-plain [] h zero = refl
splits_rune-plain [] h (suc n) = refl
splits_rune-plain (c ∷ p) (plain, h) zero =
    let start : (c / 64 == 2) ≡ false = ground (arith, plain.1) in rw start refl
splits_rune-plain (c ∷ p) (plain, h) (suc n) = splits_rune-plain p h n

-- Plain text can be cut anywhere.
boundary_trim-plain :
    (p : Bytes) (want : ℕ) → All IsPlain p → want ≤ length p → boundary_trim p want ≡ want
boundary_trim-plain p want plain le =
    let (le', is, largest) = boundary_trim_lem p want in
    let here : IsCut initial p want = record {
      inside = le;
      grounded = rw (advance-plain p plain want) refl;
      whole_rune = λ _. splits_rune-plain p plain want;
    } in
    elim (Bool-cases (ltb (boundary_trim p want) want)) [
      | inl lt ↦ absurd (largest want (omega tests) (omega arith) here)
      | inr not_lt ↦ ground arith
    ]

module _ (b : Backend) (z : Zstd) where
  target_above :
      (s : Store b.Handle) (n : ℕ)
      → n < s.head_size - s.head_bytes
      → n < s.chunk_size
      → n < cut_target s
  target_above s n lt lt' =
      elim (Bool-cases
        (ltb 0 (s.head_size - s.head_bytes) && ltb (s.head_size - s.head_bytes) s.chunk_size)) [
          | inl at_head ↦ rw at_head lt
          | inr at_chunk ↦ rw at_chunk lt'
        ]

  short_stops :
      (s : Store b.Handle) → length s.chunk_buf < cut_target s → process_round b z s ≡ none
  unfolding process_round
  short_stops s lt =
      let short : ltb (length s.chunk_buf) (cut_target s) ≡ true = ground (arith, lt) in
      rw short refl

  -- All that was written lies in the chunk buffer.
  snapshot-short :
      (s : Store b.Handle)
      → s.head_chunks ≡ []
      → s.tail_chunks ≡ []
      → s.total_bytes ≡ length s.chunk_buf
      → s.tail_size < length s.chunk_buf
      → All IsPlain s.chunk_buf
      → let n = length s.chunk_buf - s.tail_size in
        (snapshot b z s).1 ≡ append_truncation [] n ++ drop n s.chunk_buf
  unfolding snapshot decode_chunks trim_tail
  snapshot-short s no_head no_tail total long plain =
      let n = length s.chunk_buf - s.tail_size in
      let is_long : ltb s.tail_size (length s.chunk_buf) ≡ true = ground (arith, long) in
      let left : length s.chunk_buf - 0 - length (drop n s.chunk_buf) ≡ n =
        omega (arith, long, length-drop n s.chunk_buf) in
      let shown : ltb 0 n ≡ true = ground (arith, long) in
      rw
        (
          no_head,
          no_tail,
          is_long,
          boundary_trim-plain s.chunk_buf n plain (omega arith),
          total,
          left,
          shown,
        )
        refl

  -- A new store whose tail is smaller than its head and its chunks, given plain text longer than the
  -- tail and shorter than the head and a chunk, has lost the beginning of the text: the history
  -- is a notice and the last `tail_size` bytes, though the head is meant to be kept verbatim.
  pub drain-snapshot :
      (head tail chunk fallback : ℕ) (w : Bytes)
      → suc tail < length w
      → length w < suc head
      → length w < suc chunk
      → All IsPlain w
      → let fresh =
          new_store_backend {H = b.Handle}
            (pos (suc head))
            (pos (suc tail))
            (pos (suc chunk))
            (pos (suc fallback)) in
        let n = length w - suc tail in
        (snapshot b z (drain b z (write fresh w).0)).1 ≡ append_truncation [] n ++ drop n w
  unfolding drain take_pending write new_store_backend
  drain-snapshot head tail chunk fallback [] long lt lt' plain = absurd (omega arith)
  drain-snapshot head tail chunk fallback (c ∷ w) long lt lt' plain =
      let fresh =
        new_store_backend {H = b.Handle} (pos (suc head)) (pos (suc tail)) (pos (suc chunk))
          (pos (suc fallback)) in
      let s = take_pending (write fresh (c ∷ w)).0 in
      let stops : process b z (suc (suc (length w))) s ≡ s =
        process-stop b z (suc (length w)) s
          (short_stops s (target_above s (suc (length w)) (omega arith) lt')) in
      rw stops (snapshot-short (record s { busy = false }) refl refl (omega arith) long plain)
