-- ===== src/Scrollback/Store/Snapshot.antt =====
-- What `Snapshot` returns of a stream.
use bgx.Base.{
  ℕ, ◌-◌, ◌≤◌, ◌≡◌, refl, sym, ap, ◌∙◌, ◌⊎◌, inl, inr, [], ◌++◌, Bytes, ltb, if◌then◌else◌, length,
  length-append, length-drop, take, drop, take-append-drop, arith, Bool-cases, append-nil,
  append_assoc,
}
use bgx.Vtscan.Valid.{advance-append, at_ground-initial}
use bgx.Vtscan.{initial, advance}
use bgx.Scrollback.Text.{append_truncation}
use bgx.Scrollback.Backend.{Backend, Zstd}
use bgx.Scrollback.Boundary.{boundary_trim}
use bgx.Scrollback.Boundary.Nearest.{boundary_trim_lem}
use bgx.Scrollback.Store.{Store, trim_tail, snapshot}
use bgx.Scrollback.Store.Evict.{decode_chunks-Holds, advance-Holds}
use bgx.Scrollback.Store.Tiled.{Tiled}

-- What `trim_tail` cuts off: nothing, or a stretch that ends at ground and leaves enough.
record Trimmed (b : Backend) (z : Zstd) (tail_size : ℕ) (tail : Bytes) : Type 0 where
  cut : Bytes
  rest : Bytes
  splits : tail ≡ cut ++ rest
  same : trim_tail b z tail_size tail ≡ rest
  grounded : advance initial cut ≡ initial
  enough : (cut ≡ []) ⊎ (tail_size ≤ length rest)

module _ (b : Backend) (z : Zstd) where
  trim_tail-Trimmed : (tail_size : ℕ) (tail : Bytes) → Trimmed b z tail_size tail
  unfolding trim_tail advance
  trim_tail-Trimmed tail_size tail = elim (Bool-cases (ltb tail_size (length tail))) [
    | inl long ↦
        let n = boundary_trim tail (length tail - tail_size) in
        let (le, is, _) = boundary_trim_lem tail (length tail - tail_size) in
        record {
          cut = take n tail;
          rest = drop n tail;
          splits = sym (take-append-drop n tail);
          same = rw long refl;
          grounded = at_ground-initial _ is.grounded;
          enough = inr (ground (arith, length-drop n tail));
        }
    | inr short ↦ record {
      cut = [];
      rest = tail;
      splits = refl;
      same = rw short refl;
      grounded = refl;
      enough = inl refl;
    }
  ]

  -- The history is the beginning of the stream, a notice of the `length middle` bytes left out, if
  -- any, and the end of the stream.
  pub record History (w : Bytes) (s : Store b.Handle) : Type 0 where
    pub head : Bytes
    pub middle : Bytes
    pub tail : Bytes
    pub tiles : w ≡ head ++ (middle ++ tail)
    pub shown :
        (snapshot b z s).1
        ≡ (if ltb 0 (length middle) then append_truncation head (length middle) else head) ++ tail
    pub no_error : (snapshot b z s).0 ≡ s
    pub head_grounded : advance initial head ≡ initial
    pub middle_grounded : advance initial middle ≡ initial
    pub tail_full : (middle ≡ []) ⊎ (s.tail_size ≤ length tail)

  counted :
      (w head lost kept buf cut rest : Bytes)
      → w ≡ head ++ (lost ++ (kept ++ buf))
      → kept ++ buf ≡ cut ++ rest
      → length w - length head - length rest ≡ length (lost ++ cut)
  counted w head lost kept buf cut rest e e' =
      let size : (p q : Bytes) → p ≡ q → length p ≡ length q =
        λ p q h. ap (λ (t : Bytes). length t) h in
      omega (
        arith,
        size _ _ e,
        size _ _ e',
        length-append head (lost ++ (kept ++ buf)),
        length-append lost (kept ++ buf),
        length-append cut rest,
        length-append lost cut,
      )

  left_enough :
      (tail_size : ℕ) (lost kept buf cut rest : Bytes)
      → kept ++ buf ≡ cut ++ rest
      → (lost ≡ []) ⊎ (tail_size ≤ length kept)
      → (cut ≡ []) ⊎ (tail_size ≤ length rest)
      → (lost ++ cut ≡ []) ⊎ (tail_size ≤ length rest)
  left_enough tail_size lost kept buf cut rest e was (inr left) = inr left
  left_enough tail_size lost kept buf cut rest e (inl no_lost) (inl no_cut) =
      inl (rw (no_lost, no_cut) refl)
  left_enough tail_size lost kept buf cut rest e (inr left) (inl no_cut) =
      let same : kept ++ buf ≡ rest = e ∙ ap (λ (t : Bytes). t ++ rest) no_cut in
      inr (omega (arith, ap (λ (t : Bytes). length t) same, length-append kept buf))

  retile :
      (head lost kept cut rest : Bytes)
      → kept ≡ cut ++ rest
      → head ++ (lost ++ kept) ≡ head ++ ((lost ++ cut) ++ rest)
  retile head lost kept cut rest e = rw e (simp append_assoc)

  -- What `Snapshot` returns when nothing is pending, in a state that holds the stream `w` (which
  -- `Runs-Tiled` shows of every run): a beginning of `w`, a notice if any bytes are left out, and an end
  -- of `w`. The two cuts are at ground, the notice is that of the number of bytes between them, which
  -- `humanize_bytes` prints rounded from 1024 on, unless nothing was left out the end has at least `tail_size` bytes, and reading
  -- the chunks adds no error.
  pub snapshot-History :
      (w : Bytes) (s : Store b.Handle) → s.pending ≡ [] → Tiled b z w s → History w s
  unfolding snapshot
  snapshot-History w s none_pending i =
      let t = trim_tail-Trimmed s.tail_size (i.tail ++ s.chunk_buf) in
      let tiles : w ≡ i.head ++ (i.lost ++ (i.tail ++ s.chunk_buf)) =
        i.tiles ∙ rw none_pending (rw append-nil refl) in
      let n = counted w i.head i.lost i.tail s.chunk_buf t.cut t.rest tiles t.splits in
      let d : s.total_bytes - length i.head - length t.rest ≡ length (i.lost ++ t.cut) =
        rw i.total_counted n in
      record {
        head = i.head;
        middle = i.lost ++ t.cut;
        tail = t.rest;
        tiles = tiles ∙ retile i.head i.lost (i.tail ++ s.chunk_buf) t.cut t.rest t.splits;
        shown =
            rw
              (
                decode_chunks-Holds b z s.head_chunks i.head i.head_holds,
                decode_chunks-Holds b z s.tail_chunks i.tail i.tail_holds,
                t.same,
                d,
              )
              refl;
        no_error =
            rw
              (
                decode_chunks-Holds b z s.head_chunks i.head i.head_holds,
                decode_chunks-Holds b z s.tail_chunks i.tail i.tail_holds,
              )
              (ap (λ (n : ℕ). record s { errors = n }) (omega arith));
        head_grounded = advance-Holds b z s.head_chunks i.head i.head_holds;
        middle_grounded = rw (advance-append initial i.lost t.cut, i.lost_grounded) t.grounded;
        tail_full =
            left_enough s.tail_size i.lost i.tail s.chunk_buf t.cut t.rest t.splits
              (rw i.tail_counted at i.enough) t.enough;
      }
