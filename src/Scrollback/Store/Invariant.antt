-- ===== src/Scrollback/Store/Invariant.antt =====
-- The stream is what the store holds, in order, with a middle that was dropped.
use bgx.Base.Int.{ℤ}
use bgx.Base.{
  ℕ, ◌+◌, ◌≤◌, ◌<◌, ◌≡◌, refl, sym, ap, subst, ◌∙◌, Bool, ◌⊎◌, inl, inr, List, [], ◌∷◌, ◌++◌, some,
  Bytes, ltb, tests, length, length-append, arith, Bool-cases, append_assoc, append-eq-nil,
}
use bgx.Vtscan.Valid.{advance-append}
use bgx.Vtscan.{initial, advance}
use bgx.Scrollback.Backend.{Backend, Zstd, Faithful}
use bgx.Scrollback.Store.{Chunk, Store, keep_chunk, evict, process_round}
use bgx.Scrollback.Store.Evict.{ChunkIs, Holds, Holds-append, Evicted, evict_loop-Evicted}
use bgx.Scrollback.Store.Round.{process_round-Cut}
use bgx.Scrollback.Store.Runs.{Runs, fresh, wrote, moved, rested, round}
use bgx.Scrollback.Store.Tiled.{
  Tiled, new_store_backend-Tiled, write-Tiled, take_pending-Tiled, rested-Tiled,
}

module _ (b : Backend) (z : Zstd) where
  move_to_lost :
      (h l t x lost rest : Bytes)
      → t ≡ lost ++ rest
      → h ++ (l ++ (t ++ x)) ≡ h ++ ((l ++ lost) ++ (rest ++ x))
  move_to_lost h l t x lost rest e = rw e (simp append_assoc)

  still_enough :
      (w : Bytes) (s : Store b.Handle) (i : Tiled b z w s) {left : List (Chunk b.Handle)}
      {bytes : ℕ}
      → (e : Evicted b z s.tail_size i.tail left bytes)
      → (i.lost ++ e.lost ≡ []) ⊎ (s.tail_size ≤ bytes)
  still_enough w s i e = elim e.enough [
    | inr kept ↦ inr kept
    | inl same ↦
        let all : i.tail ≡ e.rest = e.splits ∙ ap (λ (t : Bytes). t ++ e.rest) same in
        elim i.enough [
          | inl none_lost ↦ inl (rw (none_lost, same) refl)
          | inr kept ↦
              inr (omega (arith, e.counted, i.tail_counted, ap (λ (t : Bytes). length t) all))
        ]
  ]

  evict-Tiled :
      (w : Bytes) (s : Store b.Handle)
      → s.head_size ≤ s.head_bytes
      → Tiled b z w s
      → Tiled b z w (evict b z s)
  unfolding evict
  evict-Tiled w s full i =
      let e =
        evict_loop-Evicted b z s.tail_size s.tail_chunks i.tail s.tail_bytes s.errors i.tail_holds
          i.tail_counted in
      record {
        head = i.head;
        lost = i.lost ++ e.lost;
        tail = e.rest;
        head_holds = i.head_holds;
        tail_holds = e.holds;
        tiles =
            i.tiles
            ∙ move_to_lost i.head i.lost i.tail (s.chunk_buf ++ s.pending) e.lost e.rest e.splits;
        head_counted = i.head_counted;
        tail_counted = e.counted;
        total_counted = i.total_counted;
        lost_grounded = rw (advance-append initial i.lost e.lost, i.lost_grounded) e.grounded;
        head_full = inr full;
        enough = still_enough w s i e;
        is_open = i.is_open;
      }

  -- The next chunk goes to the head while the head is not full, so nothing lies behind it yet.
  to_head :
      (w : Bytes) (s : Store b.Handle) (raw rest : Bytes) (c : Chunk b.Handle)
      → s.head_bytes < s.head_size
      → s.chunk_buf ≡ raw ++ rest
      → ChunkIs b z c raw
      → Tiled b z w s
      → Tiled b z w (record s {
        chunk_buf = rest;
        head_chunks = s.head_chunks ++ c ∷ [];
        head_bytes = s.head_bytes + length raw;
      })
  unfolding advance
  to_head w s raw rest c lt e is i =
      let nothing : i.lost ++ i.tail ≡ [] = elim i.head_full [
        | inl nothing ↦ nothing
        | inr full ↦ absurd (omega arith)
      ] in
      let (no_lost, no_tail) = append-eq-nil i.lost i.tail nothing in
      record {
        head = i.head ++ raw;
        lost = [];
        tail = [];
        head_holds = Holds-append b z s.head_chunks i.head c raw i.head_holds is;
        tail_holds = subst (λ t. Holds b z s.tail_chunks t) no_tail i.tail_holds;
        tiles = i.tiles ∙ rw (no_lost, no_tail, e) (simp append_assoc);
        head_counted = omega (arith, i.head_counted, length-append i.head raw);
        tail_counted = i.tail_counted ∙ ap (λ (t : Bytes). length t) no_tail;
        total_counted = i.total_counted;
        lost_grounded = refl;
        head_full = inl refl;
        enough = inl refl;
        is_open = i.is_open;
      }

  to_tail :
      (w : Bytes) (s : Store b.Handle) (raw rest : Bytes) (c : Chunk b.Handle)
      → s.head_size ≤ s.head_bytes
      → s.chunk_buf ≡ raw ++ rest
      → ChunkIs b z c raw
      → Tiled b z w s
      → Tiled b z w (record s {
        chunk_buf = rest;
        tail_chunks = s.tail_chunks ++ c ∷ [];
        tail_bytes = s.tail_bytes + length raw;
      })
  to_tail w s raw rest c full e is i = record {
    head = i.head;
    lost = i.lost;
    tail = i.tail ++ raw;
    head_holds = i.head_holds;
    tail_holds = Holds-append b z s.tail_chunks i.tail c raw i.tail_holds is;
    tiles = i.tiles ∙ rw e (simp append_assoc);
    head_counted = i.head_counted;
    tail_counted = omega (arith, i.tail_counted, length-append i.tail raw);
    total_counted = i.total_counted;
    lost_grounded = i.lost_grounded;
    head_full = inr full;
    enough = elim i.enough [ inl none_lost ↦ inl none_lost | inr kept ↦ inr (omega arith) ];
    is_open = i.is_open;
  }

  keep_chunk-Tiled :
      (w : Bytes) (s : Store b.Handle) (raw rest : Bytes) (compressed : Bool) (h : b.Handle)
      → s.chunk_buf ≡ raw ++ rest
      → ChunkIs b z (record { handle = h; raw_len = length raw; compressed = compressed }) raw
      → Tiled b z w s
      → Tiled b z w (keep_chunk b z (record s { chunk_buf = rest }) (length raw) compressed h)
  unfolding keep_chunk
  keep_chunk-Tiled w s raw rest compressed h e is i =
      elim (Bool-cases (ltb s.head_bytes s.head_size)) [
        | inl filling ↦ rw filling (to_head w s raw rest _ (omega tests) e is i)
        | inr full ↦
            rw full (evict-Tiled w _ (ground arith) (to_tail w s raw rest _ (ground arith) e is i))
      ]

  module _ (f : Faithful b z) where
    process_round-Tiled :
        (w : Bytes) (s : Store b.Handle) {s' : Store b.Handle}
        → process_round b z s ≡ some s'
        → Tiled b z w s
        → Tiled b z w s'
    process_round-Tiled w s e i =
        let c = process_round-Cut b z f s e in
        subst (λ t. Tiled b z w t) (sym c.kept)
          (keep_chunk-Tiled w s c.raw c.rest c.compressed c.handle c.splits c.is i)

    -- With a backend that keeps every chunk and a decoder that undoes the encoder, in every run the
    -- retained head, a dropped middle, the retained tail, the buffer and the pending bytes are, in
    -- this order, the stream written so far. The counters are right, the middle begins and ends at
    -- ground; nothing is dropped before the head is full, and no more than leaves `tail_size` bytes.
    pub Runs-Tiled :
        {head tail chunk fallback : ℤ} {w : Bytes} {s : Store b.Handle}
        → Runs b z head tail chunk fallback w s
        → Tiled b z w s
    Runs-Tiled {head} {tail} {chunk} {fallback} fresh =
        new_store_backend-Tiled b z head tail chunk fallback
    Runs-Tiled (wrote {w} {s} p r) = write-Tiled b z w s p (Runs-Tiled r)
    Runs-Tiled (moved {w} {s} r) = take_pending-Tiled b z w s (Runs-Tiled r)
    Runs-Tiled (rested {w} {s} e r) = rested-Tiled b z w s (Runs-Tiled r)
    Runs-Tiled (round {w} {s} r e) = process_round-Tiled w s e (Runs-Tiled r)
