-- ===== src/Scrollback/Store/Tiled.antt =====
-- The invariant of the store, and the steps that cut no chunk.
use bgx.Base.Int.{ℤ}
use bgx.Base.{
  ◌≤◌, ◌≡◌, refl, ap, ◌∙◌, false, ◌⊎◌, inl, [], ◌∷◌, ◌++◌, Bytes, length, length-append, arith,
  append-nil, append_assoc,
}
use bgx.Vtscan.{initial, advance}
use bgx.Scrollback.Backend.{Backend, Zstd}
use bgx.Scrollback.Store.{Store, new_store_backend, write, take_pending}
use bgx.Scrollback.Store.Evict.{Holds}

module _ (b : Backend) (z : Zstd) where
  -- `w` is the stream so far: the head, what was lost, the tail, and what is not cut yet.
  pub record Tiled (w : Bytes) (s : Store b.Handle) : Type 0 where
    pub head : Bytes
    pub lost : Bytes
    pub tail : Bytes
    pub head_holds : Holds b z s.head_chunks head
    pub tail_holds : Holds b z s.tail_chunks tail
    pub tiles : w ≡ head ++ (lost ++ (tail ++ (s.chunk_buf ++ s.pending)))
    pub head_counted : s.head_bytes ≡ length head
    pub tail_counted : s.tail_bytes ≡ length tail
    pub total_counted : s.total_bytes ≡ length w
    pub lost_grounded : advance initial lost ≡ initial
    pub head_full : (lost ++ tail ≡ []) ⊎ (s.head_size ≤ s.head_bytes)
    pub enough : (lost ≡ []) ⊎ (s.tail_size ≤ s.tail_bytes)
    pub is_open : s.closed ≡ false

  pub new_store_backend-Tiled :
      (head tail chunk fallback : ℤ) → Tiled [] (new_store_backend head tail chunk fallback)
  unfolding new_store_backend advance
  new_store_backend-Tiled head tail chunk fallback = record {
    head = [];
    lost = [];
    tail = [];
    head_holds = refl;
    tail_holds = refl;
    tiles = refl;
    head_counted = refl;
    tail_counted = refl;
    total_counted = refl;
    lost_grounded = refl;
    head_full = inl refl;
    enough = inl refl;
    is_open = refl;
  }

  -- More pending bytes are more of the stream.
  add_pending :
      (h l t c p q : Bytes)
      → (h ++ (l ++ (t ++ (c ++ p)))) ++ q ≡ h ++ (l ++ (t ++ (c ++ (p ++ q))))
  add_pending h l t c p q = simp append_assoc

  pub write-Tiled :
      (w : Bytes) (s : Store b.Handle) (p : Bytes) → Tiled w s → Tiled (w ++ p) (write s p).0
  unfolding write
  write-Tiled w s [] i = rw append-nil i
  write-Tiled w s (c ∷ p) i = rw i.is_open (record {
    head = i.head;
    lost = i.lost;
    tail = i.tail;
    head_holds = i.head_holds;
    tail_holds = i.tail_holds;
    tiles =
        ap (λ (t : Bytes). t ++ c ∷ p) i.tiles
        ∙ add_pending i.head i.lost i.tail s.chunk_buf s.pending (c ∷ p);
    head_counted = i.head_counted;
    tail_counted = i.tail_counted;
    total_counted = omega (arith, i.total_counted, length-append w (c ∷ p));
    lost_grounded = i.lost_grounded;
    head_full = i.head_full;
    enough = i.enough;
    is_open = refl;
  })

  pub take_pending-Tiled : (w : Bytes) (s : Store b.Handle) → Tiled w s → Tiled w (take_pending s)
  unfolding take_pending
  take_pending-Tiled w s i = record {
    head = i.head;
    lost = i.lost;
    tail = i.tail;
    head_holds = i.head_holds;
    tail_holds = i.tail_holds;
    tiles = rw append-nil i.tiles;
    head_counted = i.head_counted;
    tail_counted = i.tail_counted;
    total_counted = i.total_counted;
    lost_grounded = i.lost_grounded;
    head_full = i.head_full;
    enough = i.enough;
    is_open = i.is_open;
  }

  pub rested-Tiled :
      (w : Bytes) (s : Store b.Handle) → Tiled w s → Tiled w (record s { busy = false })
  rested-Tiled w s i = record {
    head = i.head;
    lost = i.lost;
    tail = i.tail;
    head_holds = i.head_holds;
    tail_holds = i.tail_holds;
    tiles = i.tiles;
    head_counted = i.head_counted;
    tail_counted = i.tail_counted;
    total_counted = i.total_counted;
    lost_grounded = i.lost_grounded;
    head_full = i.head_full;
    enough = i.enough;
    is_open = i.is_open;
  }
