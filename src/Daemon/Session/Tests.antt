-- ===== src/Daemon/Session/Tests.antt =====
-- A session over an emulator that shows the last byte.
use bgx.Base.Int.{pos}
use bgx.Base.{
  ℕ, ◌≡◌, refl, true, false, List, [], ◌∷◌, none, some, Bytes, codes, arith, length, flatten,
}
use bgx.Vtscan.{initial}
use bgx.Scrollback.Store.{new_store_backend}
use bgx.Daemon.Terminal.{Emulator, Replays}
use bgx.Daemon.Attach.{
  Attacher, new_attacher, deliver_output, enqueue_frame, writer_turn, output_frame,
}
use bgx.Daemon.Attach.Ending.{Attached-ended}
use bgx.Daemon.Attach.Sync.{Attached, joined, output, ended, written, Attached-idle, end_frame}
use bgx.Daemon.Session.{
  Session, Member, queue_input, pump_start, pump_finish, pump_output, WriteError,
}
use bgx.Daemon.Session.Input.{start, came, began, wrote, Tiled, Queued-Tiled}
use bgx.Daemon.Session.Output.{Finished, pump_output_lem, write_all}

abbrev last_byte : ℕ → Bytes → ℕ
last_byte t [] = t
last_byte t (c ∷ p) = last_byte c p

abbrev last_emulator : Emulator
last_emulator = record {
  Screen = ℕ;
  write = λ t p. some (last_byte t p);
  snapshot = λ t. some (t ∷ []);
  resize = λ t cols rows. some t;
  set_size = λ cols rows. true;
}

abbrev last_emulator-Replays : Replays last_emulator
last_emulator-Replays = record {
  draw = last_byte;
  draws = λ t p. refl;
  snap = λ t. t ∷ [];
  snaps = λ t. refl;
  complete = λ v t. refl;
}

abbrev member : ℕ → ℕ → ℕ → Member
member key cols rows = record {
  key = key;
  attacher = record (new_attacher []) { cols = cols; rows = rows };
}

abbrev new_session : List Member → Session last_emulator
new_session members = record {
  screen = 0;
  out_scan = initial;
  out_pending = [];
  ended = false;
  killed = false;
  closing = false;
  exit_code = 0;
  client_count = length members;
  input_buf = [];
  writing = none;
  input_errors = 0;
  output_errors = 0;
  handler_errors = 0;
  attachers = members;
}

abbrev reads : List Bytes
reads = codes "ab" ∷ (0x1b ∷ b'[' ∷ []) ∷ codes "1mc" ∷ (0xc3 ∷ []) ∷ []

pump_output_lem_example :
    let after =
      pump_output
        (new_store_backend {H = Bytes} (pos 4) (pos 4) (pos 4) (pos 4))
        (new_session [])
        reads
        false in
    Finished last_emulator last_emulator-Replays 0 (flatten reads) after.1
    × (after.0 ≡ write_all (new_store_backend {H = Bytes} (pos 4) (pos 4) (pos 4) (pos 4)) reads)
pump_output_lem_example =
    pump_output_lem last_emulator last_emulator-Replays
      (new_store_backend {H = Bytes} (pos 4) (pos 4) (pos 4) (pos 4)) (new_session []) reads false
      refl refl

abbrev typed : Session last_emulator
typed = queue_input (new_session []) (codes "ls")

abbrev writing : Session last_emulator
writing = record typed { writing = some (codes "ls") }

typed_start : pump_start typed ≡ some writing
unfolding pump_start queue_input
typed_start = refl

Queued-Tiled_example :
    Tiled (codes "ls" ∷ []) (codes "l") (pump_finish writing 1 WriteError.no_error 2)
Queued-Tiled_example = Queued-Tiled (
    wrote (codes "ls") 1 WriteError.no_error
      (began (came (codes "ls") (start refl refl)) typed_start) refl (omega arith))

-- A client joins, "a" is shown, and the session ends; then the writer has its turns.
abbrev greeted : Attacher
greeted = record {
  greeting = some (0 ∷ []);
  buf = output_frame (codes "a") ∷ end_frame ∷ [];
  pending_snapshot = none;
  closed = false;
  done = false;
  rows = 0;
  cols = 0;
}

greeted-Attached : Attached last_emulator last_emulator-Replays 97 5 greeted true
unfolding deliver_output enqueue_frame
greeted-Attached = ended (output (codes "a") (joined 5 0))

greeted_turn :
    writer_turn greeted ≡ some (output_frame (0 ∷ []), record greeted { greeting = none })
unfolding writer_turn
greeted_turn = refl

abbrev drawn : Attacher
drawn = record greeted { greeting = none; buf = end_frame ∷ [] }

drawn_turn :
    writer_turn (record greeted { greeting = none }) ≡ some (output_frame (codes "a"), drawn)
unfolding writer_turn
drawn_turn = refl

abbrev told : Attacher
told = record drawn { buf = []; done = true }

told_turn : writer_turn drawn ≡ some (end_frame, told)
unfolding writer_turn
told_turn = refl

Attached-ended_example : last_byte (last_byte 5 (0 ∷ [])) (codes "a") ≡ last_byte 0 (codes "a")
Attached-ended_example =
    Attached-ended last_emulator last_emulator-Replays
      (written (written (written greeted-Attached greeted_turn) drawn_turn) told_turn) refl

-- The same client without the end.
abbrev idle : Attacher
idle = record drawn { buf = [] }

idle-Attached : Attached last_emulator last_emulator-Replays 97 97 idle false
unfolding deliver_output writer_turn
idle-Attached = written (written (output (codes "a") (joined 5 0)) refl) refl

idle_turn : writer_turn idle ≡ none
unfolding writer_turn
idle_turn = refl

Attached-idle_example : last_byte (last_byte 5 (0 ∷ [])) (codes "a") ≡ last_byte 0 (codes "a")
Attached-idle_example =
    Attached-idle last_emulator last_emulator-Replays idle-Attached idle_turn refl refl
