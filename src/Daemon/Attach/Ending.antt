-- ===== src/Daemon/Attach/Ending.antt =====
-- The frame that ends the session comes after all output, and the writer stops behind it.
use bgx.Base.{
  ◌≡◌, refl, sym, subst, ◌∙◌, Bool, true, false, inl, inr, List, [], ◌∷◌, ◌++◌, Option, none, some,
  Bytes, leb, ◌==◌, length, All, All-append, Bool-cases, append_assoc,
}
use bgx.Daemon.Frame.{frame_output, frame_ended}
use bgx.Daemon.Terminal.{Emulator, Replays}
use bgx.Daemon.Attach.{
  attach_queue, OutFrame, Attacher, signal_close, enqueue_frame, deliver_output, output_frame,
}
use bgx.Daemon.Attach.Sync.{
  owed, snapshot_frames, writer_turn-Sent, writer_turn-running, Attached, joined, output, asked,
  ended, left, written, Attached-Owes, end_frame, resize_frame, owed-enqueue_frame, receive_all,
}

abbrev IsQuiet : OutFrame → Type 0
IsQuiet f = (f.tag == frame_ended) ≡ false

abbrev IsControl : OutFrame → Type 0
IsControl f = (f.tag == frame_output) ≡ false

-- Before the end: whether it was queued, whether the writer has returned, and what is owed.
data Ending : Bool → Bool → List OutFrame → Type 0 where
  running : {fs : List OutFrame} → All IsQuiet fs → Ending false false fs
  queued :
      {fs : List OutFrame} (before after : List OutFrame)
      → fs ≡ before ++ end_frame ∷ after
      → All IsQuiet before
      → All IsControl after
      → Ending true false fs
  over : {fs : List OutFrame} → All IsControl fs → Ending true true fs

snapshot_frames-IsQuiet : (p : Option Bytes) → All IsQuiet (snapshot_frames p)
snapshot_frames-IsQuiet none = tt
snapshot_frames-IsQuiet (some p) = (refl, tt)

Ending-enqueue_frame :
    {ending done : Bool} {fs : List OutFrame} (f : OutFrame)
    → IsQuiet f
    → IsControl f
    → Ending ending done fs
    → Ending ending done (fs ++ f ∷ [])
Ending-enqueue_frame f q c (running {fs} h) = running (All-append IsQuiet fs (f ∷ []) h (q, tt))
Ending-enqueue_frame f q c (queued before after e h k) =
    queued before (after ++ f ∷ []) (rw e (append_assoc before (end_frame ∷ after) (f ∷ []))) h
      (All-append IsControl after (f ∷ []) k (c, tt))
Ending-enqueue_frame f q c (over {fs} h) = over (All-append IsControl fs (f ∷ []) h (c, tt))

Ending-end :
    {done : Bool} {fs : List OutFrame}
    → Ending false done fs
    → Ending true done (fs ++ end_frame ∷ [])
Ending-end (running {fs} h) = queued fs [] refl h tt

-- A frame is written.
Ending-written :
    {ending done done' : Bool} {fs fs' : List OutFrame} {f : OutFrame}
    → done ≡ false
    → fs ≡ f ∷ fs'
    → done' ≡ (f.tag == frame_ended)
    → Ending ending done fs
    → Ending ending done' fs'
Ending-written d e e' (running h) = let (quiet, rest) = rw e at h in rw (e', quiet) (running rest)
Ending-written {fs' = fs'} {f = f} d e e' (queued [] after s h k) =
    let first : f ≡ end_frame = cc in let rest : fs' ≡ after = cc in rw (e', first, rest) (over k)
Ending-written {fs' = fs'} {f = f} d e e' (queued (g ∷ before) after s (quiet, h) k) =
    let first : f ≡ g = cc in
    let rest : fs' ≡ before ++ end_frame ∷ after = cc in
    rw (e', first, quiet) (queued before after rest h k)
Ending-written d e e' (over h) = cc

rest-IsControl :
    {done : Bool} {fs : List OutFrame} → done ≡ true → Ending true done fs → All IsControl fs
rest-IsControl d (queued before after s h k) = cc
rest-IsControl d (over h) = h

module _ (e : Emulator) (r : Replays e) where
  -- A frame goes to the end of what is owed.
  enqueue_frame-Ending :
      {ending : Bool} (a : Attacher) (f : OutFrame)
      → Ending ending a.done (owed a ++ f ∷ [])
      → Ending ending (enqueue_frame a f).done (owed (enqueue_frame a f))
  unfolding enqueue_frame
  enqueue_frame-Ending {ending} a f h =
      subst (λ t. Ending ending a.done t) (sym (owed-enqueue_frame e r a f)) h

  one_more :
      (a : Attacher) (p : Bytes)
      → Ending false a.done (owed a)
      → Ending false a.done (
          snapshot_frames a.greeting
          ++ (snapshot_frames a.pending_snapshot ++ (a.buf ++ output_frame p ∷ [])))
  unfolding enqueue_frame
  one_more a p (running h) =
      subst (λ t. Ending false false t) (sym (owed-enqueue_frame e r a (output_frame p)))
        (running (All-append IsQuiet (owed a) (output_frame p ∷ []) h (refl, tt)))

  synced :
      (p : Bytes) (a : Attacher)
      → Ending false a.done (owed a)
      → Ending false a.done (snapshot_frames a.greeting ++ output_frame p ∷ [])
  synced p a (running h) = running (
      All-append IsQuiet (snapshot_frames a.greeting) _ (snapshot_frames-IsQuiet a.greeting)
        (refl, tt))

  deliver_output-Ending :
      (screen : e.Screen) (a : Attacher) (p : Bytes)
      → Ending false a.done (owed a)
      → let a' = (deliver_output e screen a p).0 in Ending false a'.done (owed a')
  unfolding deliver_output
  deliver_output-Ending screen a p h = elim (Bool-cases (leb attach_queue (length a.buf))) [
    | inl full ↦ rw (full, r.snaps screen) (synced _ a h)
    | inr fits ↦ rw fits (one_more a p h)
  ]

  Attached-Ending :
      {screen view : e.Screen} {a : Attacher} {over : Bool}
      → Attached e r screen view a over
      → Ending over a.done (owed a)
  unfolding signal_close
  Attached-Ending (joined view screen) = running (refl, tt)
  Attached-Ending (output {screen} {view} {a} p s) =
      deliver_output-Ending (r.draw screen p) a p (Attached-Ending s)
  Attached-Ending (asked {a = a} s) =
      enqueue_frame-Ending a resize_frame
        (Ending-enqueue_frame resize_frame refl refl (Attached-Ending s))
  Attached-Ending (ended {a = a} s) =
      enqueue_frame-Ending a end_frame (Ending-end (Attached-Ending s))
  Attached-Ending (left s) = Attached-Ending s
  Attached-Ending (written {a = a} s t) =
      let sent = writer_turn-Sent a t in
      Ending-written (writer_turn-running a t) sent.front sent.ends (Attached-Ending s)

  receive_all-IsControl :
      (view : e.Screen) (fs : List OutFrame) → All IsControl fs → receive_all e r view fs ≡ view
  receive_all-IsControl view [] h = refl
  receive_all-IsControl view (f ∷ fs) (control, h) = rw control (receive_all-IsControl view fs h)

  -- In every run of one client's frames, in which output, requests for a size, the end of the
  -- session, the client's leaving and the turns of its writer stand in any order (and output none
  -- after the end), the client has exactly the session's screen once it has received the frame that
  -- ends the session.
  pub Attached-ended :
      {screen view : e.Screen} {a : Attacher}
      → Attached e r screen view a true
      → a.done ≡ true
      → view ≡ screen
  Attached-ended {view = view} {a = a} s d =
      sym (receive_all-IsControl view (owed a) (rest-IsControl d (Attached-Ending s)))
      ∙ Attached-Owes e r s
