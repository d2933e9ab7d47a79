-- ===== src/Scrollback/Store.antt =====
-- scrollback/store.go: the store. The writer appends to `pending`; the background goroutine moves
-- `pending` to `chunk_buf` (`take_pending`) and cuts chunks off it, one in a round of `process`. The
-- lock is free within a round while it compresses, so writes stand between any two rounds; they
-- touch `pending`, `total_bytes` and `busy` alone, which the rest of the round does not read.
pub mod Evict
pub mod Runs
pub mod Round
pub mod Tiled
pub mod Invariant
pub mod Snapshot
pub mod Drain
pub mod Small
use bgx.Base.Int.{ℤ, pos, negsuc}
use bgx.Base.{
  ℕ, zero, suc, ◌+◌, ◌-◌, ◌*◌, ◌^◌, Bool, true, false, not, ◌&&◌, List, [], ◌∷◌, ◌++◌, Option, none,
  some, Bytes, ltb, leb, ◌==◌, if◌then◌else◌, length, take, drop,
}
use bgx.Scrollback.Backend.{Backend, Zstd}
use bgx.Scrollback.Boundary.{boundary_cut, boundary_trim}
use bgx.Scrollback.Text.{append_truncation}

pub record Chunk (H : Type 0) : Type 0 where
  pub handle : H
  pub raw_len : ℕ
  pub compressed : Bool

-- `errors` counts what was joined into `err`; nil is 0.
pub record Store (H : Type 0) : Type 0 where
  pub head_size : ℕ
  pub tail_size : ℕ
  pub chunk_size : ℕ
  pub fallback_bytes : ℕ
  pub pending : Bytes
  pub chunk_buf : Bytes
  pub head_chunks : List (Chunk H)
  pub head_bytes : ℕ
  pub tail_chunks : List (Chunk H)
  pub tail_bytes : ℕ
  pub total_bytes : ℕ
  pub closed : Bool
  pub busy : Bool
  pub errors : ℕ

abbrev positive_or : ℤ → ℕ → ℕ
positive_or (pos zero) default = default
positive_or (pos (suc n)) default = suc n
positive_or (negsuc n) default = default

unfoldable pub new_store_backend : {H : Type 0} → ℤ → ℤ → ℤ → ℤ → Store H
new_store_backend head tail chunk fallback = record {
  head_size = positive_or head (2 ^ 20);
  tail_size = positive_or tail (9 * 2 ^ 20);
  chunk_size = positive_or chunk (2 ^ 20);
  fallback_bytes = positive_or fallback (10 * 2 ^ 20);
  pending = [];
  chunk_buf = [];
  head_chunks = [];
  head_bytes = 0;
  tail_chunks = [];
  tail_bytes = 0;
  total_bytes = 0;
  closed = false;
  busy = false;
  errors = 0;
}

-- `Write`, which always reports the whole of `p` as written.
unfoldable pub write : {H : Type 0} → Store H → Bytes → Store H × ℕ
write s [] = (s, 0)
write s (c ∷ p) = if s.closed then (s, length (c ∷ p)) else (
  record s {
    pending = s.pending ++ c ∷ p;
    total_bytes = s.total_bytes + length (c ∷ p);
    busy = true;
  },
  length (c ∷ p),
)

-- `drain` takes the pending bytes, and `process` appends them to the chunk buffer.
unfoldable pub take_pending : {H : Type 0} → Store H → Store H
take_pending s = record s { pending = []; chunk_buf = s.chunk_buf ++ s.pending }

-- `process` aims at the chunk size, and at the end of the head while that is nearer.
abbrev pub cut_target : {H : Type 0} → Store H → ℕ
cut_target s =
    let r = s.head_size - s.head_bytes in if ltb 0 r && ltb r s.chunk_size then r else s.chunk_size

module _ (b : Backend) (z : Zstd) where
  -- The loop of `evict`: the chunks that stay, their bytes, and the errors of dropping the others.
  unfoldable pub evict_loop :
      ℕ
      → List (Chunk b.Handle)
      → ℕ
      → ℕ
      → record { chunks : List (Chunk b.Handle); bytes : ℕ; errs : ℕ }
  evict_loop tail_size [] bytes errs = record { chunks = []; bytes = bytes; errs = errs }
  evict_loop tail_size (c ∷ []) bytes errs = record { chunks = c ∷ []; bytes = bytes; errs = errs }
  evict_loop tail_size (c ∷ d ∷ r) bytes errs =
      let more =
        evict_loop tail_size (d ∷ r) (bytes - c.raw_len)
          (if b.drop_handle c.handle then errs else errs + 1) in
      if leb tail_size (bytes - c.raw_len)
      then more
      else record { chunks = c ∷ d ∷ r; bytes = bytes; errs = errs }

  unfoldable pub evict : Store b.Handle → Store b.Handle
  evict s =
      let left = evict_loop s.tail_size s.tail_chunks s.tail_bytes s.errors in
      record s { tail_chunks = left.chunks; tail_bytes = left.bytes; errors = left.errs }

  -- `flushChunk` behind the backend's `put`.
  unfoldable pub keep_chunk : Store b.Handle → ℕ → Bool → b.Handle → Store b.Handle
  keep_chunk s cut compressed h =
      let c : Chunk b.Handle = record { handle = h; raw_len = cut; compressed = compressed } in
      if ltb s.head_bytes s.head_size
      then record s { head_chunks = s.head_chunks ++ c ∷ []; head_bytes = s.head_bytes + cut }
      else evict
          (record s { tail_chunks = s.tail_chunks ++ c ∷ []; tail_bytes = s.tail_bytes + cut })

  unfoldable pub flush_chunk : Store b.Handle → ℕ → ℕ → Store b.Handle
  flush_chunk s cut backlog =
      let raw = take cut s.chunk_buf in
      let compressed = leb backlog s.fallback_bytes in
      let s' = record s { chunk_buf = drop cut s.chunk_buf } in
      elim (b.put (if compressed then z.encode_all raw else raw)) [
        | none ↦ record s' { errors = s.errors + 1 }
        | some h ↦ keep_chunk s' cut compressed h
      ]

  -- One round of the loop of `process`; `none` is its return.
  unfoldable pub process_round : Store b.Handle → Option (Store b.Handle)
  process_round s =
      if ltb (length s.chunk_buf) (cut_target s)
      then none
      else elim (boundary_cut s.chunk_buf (cut_target s)) [
        | none ↦ none
        | some cut ↦
            if cut == 0
            then none
            else some (flush_chunk s cut (length s.chunk_buf - cut + length s.pending))
      ]

  -- `process`; each round takes at least a byte off the chunk buffer.
  unfoldable pub process : ℕ → Store b.Handle → Store b.Handle
  process zero s = s
  process (suc fuel) s = elim (process_round s) [ none ↦ s | some s' ↦ process fuel s' ]

  -- `drain` once: the pending bytes are moved and cut, and no work is left.
  unfoldable pub drain : Store b.Handle → Store b.Handle
  drain s =
      let s' = take_pending s in record (process (suc (length s'.chunk_buf)) s') { busy = false }

  -- The bytes of a chunk, and the number of errors.
  unfoldable pub decode_chunk : Chunk b.Handle → Bytes × ℕ
  decode_chunk c = elim (b.get c.handle) [
    | none ↦ ([], 1)
    | some payload ↦
        if c.compressed
        then elim (z.decode_all payload) [ none ↦ ([], 1) | some d ↦ (d, 0) ]
        else (payload, 0)
  ]

  unfoldable pub decode_chunks : List (Chunk b.Handle) → Bytes × ℕ
  decode_chunks [] = ([], 0)
  decode_chunks (c ∷ cs) =
      let (d, e) = decode_chunk c in let (ds, es) = decode_chunks cs in (d ++ ds, e + es)

  -- The tail of `Snapshot`, cut to its size.
  unfoldable pub trim_tail : ℕ → Bytes → Bytes
  trim_tail tail_size tail =
      if ltb tail_size (length tail)
      then drop (boundary_trim tail (length tail - tail_size)) tail
      else tail

  -- `Snapshot` once nothing is pending: the store with the errors of reading, and the history.
  unfoldable pub snapshot : Store b.Handle → Store b.Handle × Bytes
  snapshot s =
      let (head, head_errors) = decode_chunks s.head_chunks in
      let (kept, tail_errors) = decode_chunks s.tail_chunks in
      let tail = trim_tail s.tail_size (kept ++ s.chunk_buf) in
      let discarded = s.total_bytes - length head - length tail in
      (
        record s { errors = s.errors + head_errors + tail_errors },
        (if ltb 0 discarded then append_truncation head discarded else head) ++ tail,
      )
