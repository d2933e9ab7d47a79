-- ===== src/Daemon/Attach/Sync.antt =====
-- A client that replays what it is sent shows what the session shows.
use bgx.Base.{
  ◌≡◌, refl, sym, ap, ◌∙◌, Bool, true, false, ◌⊎◌, inl, inr, List, [], ◌∷◌, ◌++◌, Option, none,
  some, Bytes, leb, ◌==◌, if◌then◌else◌, length, Bool-cases, append_assoc,
}
use bgx.Daemon.Frame.{frame_output, frame_resize, frame_ended}
use bgx.Daemon.Terminal.{Emulator, Replays}
use bgx.Daemon.Attach.{
  attach_queue, OutFrame, Attacher, new_attacher, signal_close, enqueue_frame, deliver_output,
  output_frame, writer_turn, take_frame, take_snapshot, take_greeting,
}

abbrev pub snapshot_frames : Option Bytes → List OutFrame
snapshot_frames none = []
snapshot_frames (some p) = output_frame p ∷ []

-- The frames that the writer has still to write, in order.
abbrev pub owed : Attacher → List OutFrame
owed a = snapshot_frames a.greeting ++ (snapshot_frames a.pending_snapshot ++ a.buf)

abbrev pub end_frame : OutFrame
end_frame = record { tag = frame_ended; payload = [] }

abbrev pub resize_frame : OutFrame
resize_frame = record { tag = frame_resize; payload = [] }

-- A frame was taken off the front of what is owed; the one that ends the session ends the writer.
pub record Sent (a : Attacher) (f : OutFrame) (a' : Attacher) : Type 0 where
  pub front : owed a ≡ f ∷ owed a'
  pub ends : a'.done ≡ (f.tag == frame_ended)

abbrev Turn : Attacher → Option (OutFrame × Attacher) → Type 0
Turn a none = (a.closed ≡ true) ⊎ (owed a ≡ [])
Turn a (some (f, a')) = Sent a f a'

take_frame-Turn :
    (a : Attacher) (buf : List OutFrame)
    → a.greeting ≡ none
    → a.pending_snapshot ≡ none
    → a.buf ≡ buf
    → Turn a (take_frame a buf)
take_frame-Turn a [] g p e = inr (rw (g, p, e) refl)
take_frame-Turn a (f ∷ fs) g p e = record { front = rw (g, p, e) refl; ends = refl }

take_snapshot-Turn :
    (a : Attacher) (snap : Option Bytes)
    → a.done ≡ false
    → a.greeting ≡ none
    → a.pending_snapshot ≡ snap
    → Turn a (take_snapshot a snap)
take_snapshot-Turn a none d g p = take_frame-Turn a a.buf g p refl
take_snapshot-Turn a (some snap) d g p = record { front = rw (g, p) refl; ends = d }

take_greeting-Turn :
    (a : Attacher) (greeting : Option Bytes)
    → a.done ≡ false
    → a.greeting ≡ greeting
    → Turn a (take_greeting a greeting)
take_greeting-Turn a (some snap) d g = record { front = rw g refl; ends = d }
take_greeting-Turn a none d g = elim (Bool-cases a.closed) [
  | inl closed ↦ rw closed (inl refl)
  | inr live ↦ rw live (take_snapshot-Turn _ a.pending_snapshot d g refl)
]

writer_turn-Turn : (a : Attacher) → a.done ≡ false → Turn a (writer_turn a)
unfolding writer_turn
writer_turn-Turn a d = rw d (take_greeting-Turn _ a.greeting refl refl)

-- A writer that has returned takes no turn.
pub writer_turn-running :
    (a : Attacher) {f : OutFrame} {a' : Attacher} → writer_turn a ≡ some (f, a') → a.done ≡ false
unfolding writer_turn
writer_turn-running a e = elim (Bool-cases a.done) [
  | inl over ↦ cc (rw over at e)
  | inr running ↦ running
]

pub writer_turn-Sent :
    (a : Attacher) {f : OutFrame} {a' : Attacher} → writer_turn a ≡ some (f, a') → Sent a f a'
writer_turn-Sent a e = rw e at (writer_turn-Turn a (writer_turn-running a e))

module _ (e : Emulator) (r : Replays e) where
  -- What a client's terminal does with a frame.
  abbrev pub receive : e.Screen → OutFrame → e.Screen
  receive view f = if f.tag == frame_output then r.draw view f.payload else view

  abbrev pub receive_all : e.Screen → List OutFrame → e.Screen
  receive_all view [] = view
  receive_all view (f ∷ fs) = receive_all (receive view f) fs

  receive_all-append :
      (view : e.Screen) (fs gs : List OutFrame)
      → receive_all view (fs ++ gs) ≡ receive_all (receive_all view fs) gs
  receive_all-append view [] gs = refl
  receive_all-append view (f ∷ fs) gs = receive_all-append (receive view f) fs gs

  -- `Attached screen view a over`: while the session shows `screen`, a client that joined in whatever
  -- state shows `view`, and `a` is what the daemon knows of it; `over` once `endAttachers` has run.
  pub data Attached : e.Screen → e.Screen → Attacher → Bool → Type 0 where
    joined : (view screen : e.Screen) → Attached screen view (new_attacher (r.snap screen)) false
    output :
        {screen view : e.Screen} {a : Attacher} (p : Bytes)
        → Attached screen view a false
        → Attached (r.draw screen p) view (deliver_output e (r.draw screen p) a p).0 false
    asked :
        {screen view : e.Screen} {a : Attacher} {over : Bool}
        → Attached screen view a over
        → Attached screen view (enqueue_frame a resize_frame) over
    ended :
        {screen view : e.Screen} {a : Attacher}
        → Attached screen view a false
        → Attached screen view (enqueue_frame a end_frame) true
    left :
        {screen view : e.Screen} {a : Attacher} {over : Bool}
        → Attached screen view a over
        → Attached screen view (signal_close a) over
    written :
        {screen view : e.Screen} {a a' : Attacher} {f : OutFrame} {over : Bool}
        → Attached screen view a over
        → writer_turn a ≡ some (f, a')
        → Attached screen (receive view f) a' over

  abbrev pub Owes : e.Screen → e.Screen → Attacher → Type 0
  Owes screen view a = receive_all view (owed a) ≡ screen

  pub owed-enqueue_frame :
      (a : Attacher) (f : OutFrame) → owed (enqueue_frame a f) ≡ owed a ++ f ∷ []
  unfolding enqueue_frame
  owed-enqueue_frame a f = simp append_assoc

  -- A snapshot makes good whatever came before it.
  resynced :
      (screen view : e.Screen) (fs : List OutFrame)
      → receive_all view (fs ++ output_frame (r.snap screen) ∷ []) ≡ screen
  resynced screen view [] = r.complete view screen
  resynced screen view (f ∷ fs) = resynced screen (receive view f) fs

  one_more :
      (screen view : e.Screen) (a : Attacher) (p : Bytes)
      → Owes screen view a
      → receive_all view (
          snapshot_frames a.greeting
          ++ (snapshot_frames a.pending_snapshot ++ (a.buf ++ output_frame p ∷ [])))
        ≡ r.draw screen p
  unfolding enqueue_frame
  one_more screen view a p h =
      let e1 = owed-enqueue_frame a (output_frame p) in
      ap (receive_all view) e1
      ∙ receive_all-append view (owed a) (output_frame p ∷ [])
      ∙ ap (λ (v : e.Screen). r.draw v p) h

  control_frame :
      (screen view : e.Screen) (a : Attacher) (f : OutFrame)
      → (f.tag == frame_output) ≡ false
      → Owes screen view a
      → Owes screen view (enqueue_frame a f)
  control_frame screen view a f not_output h =
      ap (receive_all view) (owed-enqueue_frame a f)
      ∙ receive_all-append view (owed a) (f ∷ [])
      ∙ rw not_output h

  deliver_output-Owes :
      (screen view : e.Screen) (a : Attacher) (p : Bytes)
      → Owes screen view a
      → Owes (r.draw screen p) view (deliver_output e (r.draw screen p) a p).0
  unfolding deliver_output
  deliver_output-Owes screen view a p h = elim (Bool-cases (leb attach_queue (length a.buf))) [
    | inl full ↦
        rw (full, r.snaps (r.draw screen p))
          (resynced (r.draw screen p) view (snapshot_frames a.greeting))
    | inr fits ↦ rw fits (one_more screen view a p h)
  ]

  pub Attached-Owes :
      {screen view : e.Screen} {a : Attacher} {over : Bool}
      → Attached screen view a over
      → Owes screen view a
  unfolding signal_close
  Attached-Owes (joined view screen) = r.complete view screen
  Attached-Owes (output {screen} {view} {a} p s) =
      deliver_output-Owes screen view a p (Attached-Owes s)
  Attached-Owes (asked {screen} {view} {a} s) = control_frame screen view a _ refl (Attached-Owes s)
  Attached-Owes (ended {screen} {view} {a} s) = control_frame screen view a _ refl (Attached-Owes s)
  Attached-Owes (left s) = Attached-Owes s
  Attached-Owes (written {screen} {view} {a} {a'} {f} s t) =
      sym (ap (receive_all view) (writer_turn-Sent a t).front) ∙ Attached-Owes s

  -- In every run of one client's frames, a client whose writer waits for more has exactly the
  -- session's screen, whatever backlog it overran and however its writer's turns stood between the
  -- output.
  pub Attached-idle :
      {screen view : e.Screen} {a : Attacher} {over : Bool}
      → Attached screen view a over
      → writer_turn a ≡ none
      → a.done ≡ false
      → a.closed ≡ false
      → view ≡ screen
  Attached-idle {view = view} {a = a} s waits live attached =
      elim (rw waits at (writer_turn-Turn a live)) [
        | inl closed ↦ cc
        | inr nothing ↦ sym (ap (receive_all view) nothing) ∙ Attached-Owes s
      ]
