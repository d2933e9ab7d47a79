-- ===== src/Daemon/Session.antt =====
-- daemon/daemon.go, and of daemon/attach.go what belongs to the session: the output pump, the input
-- queue, the attached clients and the window size. The lock is held within each definition, which is
-- one step; the steps of the goroutines stand in any order.
pub mod Shown
pub mod Output
pub mod Input
pub mod Size
mod Tests
use bgx.Base.Int.{pos}
use bgx.Base.{
  ℕ, ◌+◌, ◌-◌, Bool, true, false, ◌||◌, List, [], ◌∷◌, ◌++◌, Option, none, some, Bytes, ltb, leb,
  ◌==◌, if◌then◌else◌, length, take, drop,
}
use bgx.Vtscan.{Scanner, initial, advance, safe_cut}
use bgx.Scrollback.Store.{Store, write}
use bgx.Daemon.Da.{scan_device_attributes}
use bgx.Daemon.Frame.{ResizePayload, frame_resize, frame_ended}
use bgx.Daemon.Terminal.{Emulator}
use bgx.Daemon.Attach.{
  OutFrame, Attacher, new_attacher, signal_close, enqueue_frame, deliver_output,
}

abbrev pub pty_input_cap : ℕ
pty_input_cap = 262144

-- A client in the map `attachers`, whose key is the pointer.
pub record Member : Type 0 where
  pub key : ℕ
  pub attacher : Attacher

-- `input_errors`, `output_errors` and `handler_errors` count what is joined into the errors of these names. `writing`
-- is the chunk that the input pump is writing to the PTY.
pub record Session (e : Emulator) : Type 0 where
  pub screen : e.Screen
  pub out_scan : Scanner
  pub out_pending : Bytes
  pub ended : Bool
  pub killed : Bool
  pub closing : Bool
  pub exit_code : ℕ
  pub client_count : ℕ
  pub input_buf : Bytes
  pub writing : Option Bytes
  pub input_errors : ℕ
  pub output_errors : ℕ
  pub handler_errors : ℕ
  pub attachers : List Member

unfoldable pub queue_input : {e : Emulator} → Session e → Bytes → Session e
queue_input s [] = s
queue_input s (c ∷ p) =
    if s.ended || s.closing
    then s
    else if ltb pty_input_cap (length s.input_buf + length (c ∷ p))
    then s
    else record s { input_buf = s.input_buf ++ c ∷ p }

-- `pumpInputTo` up to its write, which takes a copy of the queue; `none` if it waits or returns.
unfoldable pub pump_start : {e : Emulator} → Session e → Option (Session e)
pump_start s = elim s.input_buf [ [] ↦ none | c ∷ p ↦ some (record s { writing = some (c ∷ p) }) ]

-- What `Write` reports: the number of bytes, and whether there is an error that the pump records
-- (one of a PTY that is closed is not).
pub data WriteError : Type 0 where
  no_error closed_error other_error : WriteError

abbrev pub errors_of_write : WriteError → ℕ → ℕ → ℕ
errors_of_write other_error n sent = 1
errors_of_write closed_error n sent = 0
errors_of_write no_error n sent = if n == sent then 0 else 1

-- `pumpInputTo` behind its write of `sent` bytes.
unfoldable pub pump_finish : {e : Emulator} → Session e → ℕ → WriteError → ℕ → Session e
pump_finish s n err sent = record s {
  input_buf = drop n s.input_buf;
  writing = none;
  input_errors = s.input_errors + errors_of_write err n sent;
}

abbrev pub no_clients : {e : Emulator} → Session e → Bool
no_clients s = s.client_count == 0

-- `recordHandlerError` of an error, or of none.
abbrev pub record_handler_error : ℕ → Bool → ℕ
record_handler_error errors failed = if failed then errors + 1 else errors

-- The clients that `fanout` has delivered to, and the errors recorded.
unfoldable pub deliver_all : (e : Emulator) → e.Screen → List Member → Bytes → ℕ → List Member × ℕ
deliver_all e screen [] bytes errors = ([], errors)
deliver_all e screen (m ∷ ms) bytes errors =
    let (a, failed) = deliver_output e screen m.attacher bytes in
    let (rest, errors') = deliver_all e screen ms bytes (record_handler_error errors failed) in
    (record m { attacher = a } ∷ rest, errors')

unfoldable pub fanout : {e : Emulator} → Session e → Bytes → Session e
fanout {e} s bytes =
    let (members, errors) = deliver_all e s.screen s.attachers bytes s.handler_errors in
    record s { attachers = members; handler_errors = errors }

-- `feedTerm` behind the choice of its cut: the session, and whether it returns nil.
abbrev pub feed_cut : {e : Emulator} → Session e → Option ℕ → Session e × Bool
feed_cut s none = (s, true)
feed_cut {e} s (some cut) =
    if cut == 0
    then (s, true)
    else (let safe = take cut s.out_pending in
        let s' = record s { out_scan = advance s.out_scan safe } in
        elim (e.write s'.screen safe) [
          | none ↦ (s', false)
          | some screen ↦ (
            record (fanout (record s' { screen = screen }) safe) {
              out_pending = drop cut s.out_pending;
            },
            true,
          )
        ])

unfoldable pub feed_term : {e : Emulator} → Session e → Bytes → Bool → Session e × Bool
feed_term s bytes flush =
    let s' = record s { out_pending = s.out_pending ++ bytes } in
    let n = length s'.out_pending in
    feed_cut s' (if flush then some n else safe_cut s'.out_scan s'.out_pending (pos n))

-- A round of `pumpOutputFrom` with a read of the bytes, of which an empty one does nothing. The
-- store's `Write` never fails.
unfoldable pub pump_read :
    {e : Emulator} {H : Type 0} → Store H → Session e → Bytes → Store H × Session e
pump_read store s [] = (store, s)
pump_read store s (c ∷ p) =
    let (s', ok) = feed_term s (c ∷ p) false in
    let s'' = record s' { output_errors = if ok then s'.output_errors else s'.output_errors + 1 } in
    (
      (write store (c ∷ p)).0,
      if no_clients s'' then queue_input s'' (scan_device_attributes (c ∷ p)) else s'',
    )

-- `pumpOutputFrom` on the reads of the PTY up to its end, which the Boolean tells to be an error
-- other than the end of the file, a closed file and EIO.
unfoldable pub pump_output :
    {e : Emulator} {H : Type 0} → Store H → Session e → List Bytes → Bool → Store H × Session e
pump_output store s [] failed =
    let (s', ok) = feed_term s [] true in
    let errors = if ok then s'.output_errors else s'.output_errors + 1 in
    (store, record s' { output_errors = if failed then errors + 1 else errors })
pump_output store s (p ∷ reads) failed =
    let (store', s') = pump_read store s p in pump_output store' s' reads failed

-- The handshake of `serveAttach` refuses.
abbrev pub refuses_attach : {e : Emulator} → Session e → Bool
refuses_attach s = s.ended || s.closing

-- `serveAttach`: the client joins with a snapshot, both under the lock of the output; `none` is the
-- snapshot's error.
unfoldable pub join : {e : Emulator} → Session e → ℕ → Option (Session e)
join {e} s key = elim (e.snapshot s.screen) [
  | none ↦ none
  | some snap ↦ some (record s {
    attachers = s.attachers ++ record { key = key; attacher = new_attacher snap } ∷ [];
    client_count = s.client_count + 1;
  })
]

abbrev pub enqueue_for : ℕ → OutFrame → List Member → List Member
enqueue_for key f [] = []
enqueue_for key f (m ∷ ms) =
    (if m.key == key then record m { attacher = enqueue_frame m.attacher f } else m)
    ∷ enqueue_for key f ms

-- `serveAttach` then asks the client for its size.
unfoldable pub ask_size : {e : Emulator} → Session e → ℕ → Session e
ask_size s key = record s {
  attachers = enqueue_for key (record { tag = frame_resize; payload = [] }) s.attachers;
}

unfoldable pub end_attachers : {e : Emulator} → Session e → Session e
end_attachers s = record s { attachers = go s.attachers }
  where
    go : List Member → List Member
    go [] = []
    go (m ∷ ms) =
        record m {
          attacher = enqueue_frame m.attacher (record { tag = frame_ended; payload = [] });
        }
        ∷ go ms

-- The loop of `minSize`, with the smallest columns and rows so far.
unfoldable pub min_size_loop : List Member → Option (ℕ × ℕ) → Option (ℕ × ℕ)
min_size_loop [] best = best
min_size_loop (m ∷ ms) best =
    let a = m.attacher in
    if a.cols == 0 || a.rows == 0
    then min_size_loop ms best
    else min_size_loop ms (elim best [
      | none ↦ some (a.cols, a.rows)
      | some (cols, rows) ↦
          some (if ltb a.cols cols then a.cols else cols, if ltb a.rows rows then a.rows else rows)
    ])

abbrev pub min_size : {e : Emulator} → Session e → Option (ℕ × ℕ)
min_size s = min_size_loop s.attachers none

-- `resize`: the session, and whether it returns nil.
unfoldable pub resize : {e : Emulator} → Session e → ℕ → ℕ → Session e × Bool
resize {e} s cols rows =
    if e.set_size cols rows
    then elim (e.resize s.screen cols rows) [
      | none ↦ (s, false)
      | some screen ↦ (record s { screen = screen }, true)
    ]
    else (s, false)

unfoldable pub apply_min_size : {e : Emulator} → Session e → Session e × Bool
apply_min_size s = elim (min_size s) [ none ↦ (s, true) | some (cols, rows) ↦ resize s cols rows ]

abbrev pub set_size_of : ℕ → ResizePayload → List Member → List Member
set_size_of key rp [] = []
set_size_of key rp (m ∷ ms) =
    (if m.key == key
      then record m { attacher = record (m.attacher) { rows = rp.rows; cols = rp.cols } }
      else m)
    ∷ set_size_of key rp ms

unfoldable pub attach_resize : {e : Emulator} → Session e → ℕ → ResizePayload → Session e × Bool
attach_resize s key rp =
    if rp.rows == 0 || rp.cols == 0
    then (s, true)
    else apply_min_size (record s { attachers = set_size_of key rp s.attachers })

abbrev pub without_member : ℕ → List Member → List Member
without_member key [] = []
without_member key (m ∷ ms) =
    let rest = without_member key ms in if m.key == key then rest else m ∷ rest

-- `serveAttach` behind its loop: the client leaves, and the others may have more room.
unfoldable pub leave : {e : Emulator} → Session e → ℕ → Session e × Bool
leave s key =
    apply_min_size
      (record s { attachers = without_member key s.attachers; client_count = s.client_count - 1 })

unfoldable pub attach_input : {e : Emulator} → Session e → Bytes → Session e
attach_input s [] = s
attach_input s (c ∷ p) = queue_input s (c ∷ p)
