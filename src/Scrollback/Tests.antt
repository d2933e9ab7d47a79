-- ===== src/Scrollback/Tests.antt =====
-- The store on concrete streams.
use bgx.Base.Int.{pos}
use bgx.Base.{◌≡◌, refl, false, [], ◌++◌, some, none, Bytes, codes, arith}
use bgx.Scrollback.Backend.{Zstd, Faithful, memory_backend, memory_backend-Faithful}
use bgx.Scrollback.Boundary.{boundary_cut, boundary_cut_loop, boundary_trim}
use bgx.Scrollback.Boundary.Nearest.{NearestCut, boundary_cut-NearestCut}
use bgx.Scrollback.Store.{
  Store, new_store_backend, write, take_pending, drain, process, process_round, flush_chunk,
  keep_chunk, evict, evict_loop, snapshot, decode_chunks, decode_chunk, trim_tail,
}
use bgx.Scrollback.Store.Drain.{drain-Runs}
use bgx.Scrollback.Store.Invariant.{Runs-Tiled}
use bgx.Scrollback.Store.Tiled.{Tiled}
use bgx.Scrollback.Store.Runs.{Runs, fresh, wrote}
use bgx.Scrollback.Store.Small.{drain-snapshot}
use bgx.Scrollback.Store.Snapshot.{History, snapshot-History}
use bgx.Scrollback.Text.{append_truncation, humanize_bytes}
use bgx.Vtscan.{step, safe_cut}

-- An encoder that changes nothing.
abbrev plain_zstd : Zstd
plain_zstd = record { encode_all = λ p. p; decode_all = λ p. some p }

plain_zstd-Faithful : Faithful memory_backend plain_zstd
plain_zstd-Faithful = memory_backend-Faithful plain_zstd (λ p. refl)

abbrev small_store : Store memory_backend.Handle
small_store = new_store_backend (pos 4) (pos 4) (pos 4) (pos 8)

abbrev letters : Bytes
letters = codes "abcdefghijklmnop"

abbrev after_letters : Store memory_backend.Handle
after_letters = drain memory_backend plain_zstd (write small_store letters).0

letters-Runs : Runs memory_backend plain_zstd (pos 4) (pos 4) (pos 4) (pos 8) letters after_letters
letters-Runs = (drain-Runs memory_backend plain_zstd plain_zstd-Faithful _ (wrote letters fresh)).0

sizes :
    (humanize_bytes 1023 ≡ codes "1023B")
    × (humanize_bytes 1536 ≡ codes "1.5KB")
    × (humanize_bytes 1048575 ≡ codes "1024.0KB")
unfolding humanize_bytes
sizes = (refl, refl, refl)

letters_history :
    (snapshot memory_backend plain_zstd after_letters).1
    ≡ append_truncation (codes "abcd") 8 ++ codes "mnop"
unfolding new_store_backend write take_pending drain process process_round flush_chunk keep_chunk
    evict evict_loop snapshot decode_chunks decode_chunk trim_tail boundary_cut boundary_cut_loop
    boundary_trim safe_cut step
letters_history = refl

drain-Runs_example :
    Runs memory_backend plain_zstd (pos 4) (pos 4) (pos 4) (pos 8) letters after_letters
    × (after_letters.pending ≡ [])
    × (process_round memory_backend plain_zstd after_letters ≡ none)
    × (after_letters.busy ≡ false)
drain-Runs_example =
    drain-Runs memory_backend plain_zstd plain_zstd-Faithful (write small_store letters).0
      (wrote letters fresh)

Runs-Tiled_example : Tiled memory_backend plain_zstd letters after_letters
Runs-Tiled_example = Runs-Tiled memory_backend plain_zstd plain_zstd-Faithful letters-Runs

snapshot-History_example : History memory_backend plain_zstd letters after_letters
snapshot-History_example =
    snapshot-History memory_backend plain_zstd letters after_letters drain-Runs_example.1
      Runs-Tiled_example

boundary_cut-NearestCut_example : NearestCut (codes "abcdef") 4 (boundary_cut (codes "abcdef") 4)
boundary_cut-NearestCut_example = boundary_cut-NearestCut (codes "abcdef") 4

drain-snapshot_example :
    (snapshot memory_backend plain_zstd (
      drain memory_backend plain_zstd
        (write (new_store_backend (pos 8) (pos 2) (pos 8) (pos 8)) (codes "abcde")).0)).1
    ≡ append_truncation [] 3 ++ codes "de"
drain-snapshot_example =
    drain-snapshot memory_backend plain_zstd 7 1 7 7 (codes "abcde") (omega arith) (omega arith)
      (omega arith) (ground arith)
