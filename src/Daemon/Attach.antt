-- ===== src/Daemon/Attach.antt =====
-- daemon/attach.go: what one attached client is owed. The struct `attacher`, and its writer, which
-- runs in a goroutine of its own: a turn of it takes the next frame to be written, under the lock.
pub mod Sync
pub mod Ending
use bgx.Base.{
  ℕ, Bool, true, false, ◌||◌, List, [], ◌∷◌, ◌++◌, Option, none, some, Bytes, leb, ◌==◌,
  if◌then◌else◌, length,
}
use bgx.Daemon.Frame.{FrameTag, frame_output, frame_resize, frame_ended}
use bgx.Daemon.Terminal.{Emulator}

abbrev pub attach_queue : ℕ
attach_queue = 1024

pub record OutFrame : Type 0 where
  pub tag : FrameTag
  pub payload : Bytes

-- `greeting` is the snapshot that `attachWriter` is called with, until it is written, and `done`
-- tells that it has returned. A size of 0 is not known.
pub record Attacher : Type 0 where
  pub greeting : Option Bytes
  pub buf : List OutFrame
  pub pending_snapshot : Option Bytes
  pub closed : Bool
  pub done : Bool
  pub rows : ℕ
  pub cols : ℕ

-- The client as `serveAttach` lets it join.
abbrev pub new_attacher : Bytes → Attacher
new_attacher snap = record {
  greeting = some snap;
  buf = [];
  pending_snapshot = none;
  closed = false;
  done = false;
  rows = 0;
  cols = 0;
}

unfoldable pub signal_close : Attacher → Attacher
signal_close a = record a { closed = true }

unfoldable pub enqueue_frame : Attacher → OutFrame → Attacher
enqueue_frame a f = record a { buf = a.buf ++ f ∷ [] }

abbrev pub output_frame : Bytes → OutFrame
output_frame p = record { tag = frame_output; payload = p }

-- `deliverOutput`; the Boolean tells that an error is recorded, since the snapshot failed.
unfoldable pub deliver_output : (e : Emulator) → e.Screen → Attacher → Bytes → Attacher × Bool
deliver_output e screen a bytes =
    if leb attach_queue (length a.buf)
    then elim (e.snapshot screen) [
      | none ↦ (a, true)
      | some snap ↦ (record a { buf = []; pending_snapshot = some snap }, false)
    ]
    else (record a { buf = a.buf ++ output_frame bytes ∷ [] }, false)

-- The frame at the head of the queue; the one that ends the session ends the writer.
abbrev pub take_frame : Attacher → List OutFrame → Option (OutFrame × Attacher)
take_frame a [] = none
take_frame a (f ∷ fs) = some (f, record a { buf = fs; done = f.tag == frame_ended })

abbrev pub take_snapshot : Attacher → Option Bytes → Option (OutFrame × Attacher)
take_snapshot a none = take_frame a a.buf
take_snapshot a (some p) = some (output_frame p, record a { pending_snapshot = none })

abbrev pub take_greeting : Attacher → Option Bytes → Option (OutFrame × Attacher)
take_greeting a none = if a.closed then none else take_snapshot a a.pending_snapshot
take_greeting a (some p) = some (output_frame p, record a { greeting = none })

-- A turn of `attachWriter`: the frame that it writes next; `none` if it waits or has returned.
unfoldable pub writer_turn : Attacher → Option (OutFrame × Attacher)
writer_turn a = if a.done then none else take_greeting a a.greeting

-- A write to the client failed: the writer returns.
unfoldable pub writer_fails : Attacher → Attacher
writer_fails a = record a { done = true }
