-- ===== src/Scrollback/Store/Round.antt =====
-- One round of `process`: a chunk goes from the front of the buffer to the end of the head or tail.
use bgx.Base.{
  ℕ, ◌+◌, ◌-◌, ◌<◌, ◌≡◌, refl, sym, subst, Bool, true, false, inl, inr, ◌++◌, some, Bytes, ltb, leb,
  ◌==◌, if◌then◌else◌, length, take, drop, take-append-drop, length-take, arith, Bool-cases,
  Option-cases,
}
use bgx.Vtscan.Cut.{IsCut}
use bgx.Vtscan.Valid.{at_ground-initial}
use bgx.Vtscan.{initial}
use bgx.Scrollback.Backend.{Backend, Zstd, Faithful}
use bgx.Scrollback.Boundary.{boundary_cut}
use bgx.Scrollback.Boundary.Nearest.{boundary_cut-NearestCut}
use bgx.Scrollback.Store.{Store, keep_chunk, flush_chunk, process_round, decode_chunk, cut_target}
use bgx.Scrollback.Store.Evict.{ChunkIs}

module _ (b : Backend) (z : Zstd) (f : Faithful b z) where
  -- What a round that goes on does: the front of the buffer becomes a chunk.
  pub record Cut (s s' : Store b.Handle) : Type 0 where
    pub raw : Bytes
    pub rest : Bytes
    pub handle : b.Handle
    pub compressed : Bool
    pub splits : s.chunk_buf ≡ raw ++ rest
    pub nonempty : 0 < length raw
    pub is :
        ChunkIs b z (record { handle = handle; raw_len = length raw; compressed = compressed }) raw
    pub kept : s' ≡ keep_chunk b z (record s { chunk_buf = rest }) (length raw) compressed handle

  chunk_decodes :
      (raw : Bytes) (compressed : Bool)
      → (h : b.Handle) × (b.put (if compressed then z.encode_all raw else raw) ≡ some h)
        × (decode_chunk b z (record { handle = h; raw_len = length raw; compressed = compressed })
            ≡ (raw, 0))
  unfolding decode_chunk
  chunk_decodes raw true =
      let (h, e, g) = f.stored (z.encode_all raw) in
      (h, e, rw (g, decode_chunk) (rw (f.decoded raw) refl))
  chunk_decodes raw false = let (h, e, g) = f.stored raw in (h, e, rw (g, decode_chunk) refl)

  flush_chunk-Cut :
      (s : Store b.Handle) (cut backlog : ℕ)
      → 0 < cut
      → IsCut initial s.chunk_buf cut
      → Cut s (flush_chunk b z s cut backlog)
  unfolding flush_chunk
  flush_chunk-Cut s cut backlog cut_pos is =
      let raw = take cut s.chunk_buf in
      let size : length raw ≡ cut = omega (arith, length-take cut s.chunk_buf, is.inside) in
      let (h, e, d) = chunk_decodes raw (leb backlog s.fallback_bytes) in
      record {
        raw = raw;
        rest = drop cut s.chunk_buf;
        handle = h;
        compressed = leb backlog s.fallback_bytes;
        splits = sym (take-append-drop cut s.chunk_buf);
        nonempty = omega (arith, size);
        is = record { decodes = d; size = refl; grounded = at_ground-initial _ is.grounded };
        kept = rw (e, flush_chunk) (rw size refl);
      }

  pub process_round-Cut :
      (s : Store b.Handle) {s' : Store b.Handle} → process_round b z s ≡ some s' → Cut s s'
  unfolding process_round
  process_round-Cut s {s'} e = elim (Bool-cases (ltb (length s.chunk_buf) (cut_target s))) [
    | inl short ↦ cc (rw short at e)
    | inr long ↦ elim (Option-cases (boundary_cut s.chunk_buf (cut_target s))) [
      | inl nowhere ↦ cc (rw (long, nowhere) at e)
      | inr (cut, found) ↦
          let spec = rw found at (boundary_cut-NearestCut s.chunk_buf (cut_target s)) in
          let positive : (cut == 0) ≡ false = ground (arith, spec.0) in
          let backlog = length s.chunk_buf - cut + length s.pending in
          let same : flush_chunk b z s cut backlog ≡ s' = cc (rw (long, found, positive) at e) in
          subst (λ t. Cut s t) same (flush_chunk-Cut s cut backlog spec.0 spec.1)
    ]
  ]
