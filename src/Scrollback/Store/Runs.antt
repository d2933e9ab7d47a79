-- ===== src/Scrollback/Store/Runs.antt =====
-- The runs of a store: writes, moves of the pending bytes, rounds of `process` and rests of the
-- goroutine when nothing is pending, in any order.
use bgx.Base.Int.{ℤ}
use bgx.Base.{◌≡◌, false, [], ◌++◌, some, Bytes}
use bgx.Scrollback.Backend.{Backend, Zstd}
use bgx.Scrollback.Store.{Store, new_store_backend, write, take_pending, process_round}

-- `Runs … w s`: a new store that was given the bytes `w` so far may be in the state `s`.
pub data Runs (b : Backend) (z : Zstd) (head tail chunk fallback : ℤ)
    : Bytes → Store b.Handle → Type 0 where
  fresh : Runs b z head tail chunk fallback [] (new_store_backend head tail chunk fallback)
  wrote :
      {w : Bytes} {s : Store b.Handle} (p : Bytes)
      → Runs b z head tail chunk fallback w s
      → Runs b z head tail chunk fallback (w ++ p) (write s p).0
  moved :
      {w : Bytes} {s : Store b.Handle}
      → Runs b z head tail chunk fallback w s
      → Runs b z head tail chunk fallback w (take_pending s)
  rested :
      {w : Bytes} {s : Store b.Handle}
      → s.pending ≡ []
      → Runs b z head tail chunk fallback w s
      → Runs b z head tail chunk fallback w (record s { busy = false })
  round :
      {w : Bytes} {s s' : Store b.Handle}
      → Runs b z head tail chunk fallback w s
      → process_round b z s ≡ some s'
      → Runs b z head tail chunk fallback w s'
