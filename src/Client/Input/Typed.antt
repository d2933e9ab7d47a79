-- ===== src/Client/Input/Typed.antt =====
-- What is typed is sent, in order, up to a detach key.
use bgx.Base.{
  ◌≡◌, refl, sym, ap, ◌∙◌, Bool, true, false, ◌⊎◌, subst, inl, inr, [], ◌∷◌, ◌++◌, some, Bytes,
  ◌==◌, if◌then◌else◌, append-nil, append_assoc, Bool-cases, Option-cases,
}
use bgx.Daemon.Frame.{FrameTag, frame_input, frame_detach}
use bgx.Client.CtrlKey.{feed, flush, is_ctrl_backslash}
use bgx.Client.CtrlKey.Split.{feed_keeps}
use bgx.Client.Input.{
  TerminalError, no_error, end_of_file, shutdown_error, other_error, end_and_other, expired, read,
  Outcome, running, ended, read_failed, send_failed, detached, Wire, Input, begin_round, new_input,
  send_input, flush_input, and_then, on_error, send_detach, on_read, on_expired, expire, handle,
}

-- The bytes of the Input frames that a connection has taken.
pub record Log (w : Wire) : Type 0 where
  pub sent : w.State → Bytes
  pub logs :
      (wire : w.State) (tag : FrameTag) (p : Bytes) {wire' : w.State}
      → w.send wire tag p ≡ some wire'
      → sent wire' ≡ sent wire ++ (if tag == frame_input then p else [])

module _ (w : Wire) (l : Log w) where
  -- The loop after the events so far, which have read these bytes.
  pub data Typed : Bytes → Input w → Type 0 where
    start : (wire : w.State) → l.sent wire ≡ [] → Typed [] (new_input wire)
    time_out :
        {typed : Bytes} {s : Input w}
        → Typed typed s
        → s.outcome ≡ running
        → Typed typed (handle s expired)
    was_read :
        {typed : Bytes} {s : Input w} (p : Bytes) (err : TerminalError)
        → Typed typed s
        → s.outcome ≡ running
        → Typed (typed ++ p) (handle s (read p err))

  -- What became of what was typed: while the loop runs, and when a read fails, it is what was sent
  -- and what the scanner holds; at the end of the input it was sent; at a detach it was sent but for
  -- an end that holds the key.
  abbrev pub KeptFor : Outcome → Bytes → Input w → Type 0
  KeptFor running typed s = l.sent s.wire ++ s.scanner.pending ≡ typed
  KeptFor read_failed typed s = l.sent s.wire ++ s.scanner.pending ≡ typed
  KeptFor ended typed s = l.sent s.wire ≡ typed
  KeptFor send_failed typed s = Unit
  KeptFor (detached _) typed s =
      (rest : Bytes) × (l.sent s.wire ++ rest ≡ typed) × (is_ctrl_backslash rest ≡ true)

  abbrev pub Kept : Bytes → Input w → Type 0
  Kept typed s = KeptFor s.outcome typed s

  -- A send of typed bytes, with the scanner as it was.
  send_input-sent :
      (s : Input w) (p : Bytes)
      → s.outcome ≡ running
      → let s' = send_input s p in
        ((s'.outcome ≡ running)
          × (l.sent s'.wire ≡ l.sent s.wire ++ p)
          × (s'.scanner.pending ≡ s.scanner.pending))
        ⊎ (s'.outcome ≡ send_failed)
  unfolding send_input
  send_input-sent s [] r = inl (r, sym (append-nil (l.sent s.wire)), refl)
  send_input-sent s (c ∷ p) r = elim (Option-cases (w.send s.wire frame_input (c ∷ p))) [
    | inl fails ↦ rw (fails, send_input) (inr refl)
    | inr (wire, goes) ↦
        rw (goes, send_input) (inl (r, l.logs s.wire frame_input (c ∷ p) goes, refl))
  ]

  Kept-running :
      (typed : Bytes) (s : Input w)
      → s.outcome ≡ running
      → l.sent s.wire ++ s.scanner.pending ≡ typed
      → Kept typed s
  Kept-running typed s o e = subst (λ x. KeptFor x typed s) (sym o) e

  running-Kept :
      (typed : Bytes) (s : Input w)
      → s.outcome ≡ running
      → Kept typed s
      → l.sent s.wire ++ s.scanner.pending ≡ typed
  running-Kept typed s o k = subst (λ x. KeptFor x typed s) o k

  Kept-failed : (typed : Bytes) (s : Input w) → s.outcome ≡ send_failed → Kept typed s
  Kept-failed typed s o = subst (λ x. KeptFor x typed s) (sym o) tt

  flush_input-sent :
      (typed : Bytes) (s : Input w)
      → s.outcome ≡ running
      → l.sent s.wire ++ s.scanner.pending ≡ typed
      → let s' = flush_input s in
        ((s'.outcome ≡ running) × (l.sent s'.wire ≡ typed) × (s'.scanner.pending ≡ []))
        ⊎ (s'.outcome ≡ send_failed)
  unfolding flush_input flush
  flush_input-sent typed s r e =
      elim (send_input-sent (record s { scanner = record { pending = [] } }) s.scanner.pending r) [
        | inl (o, sent, empty) ↦ inl (o, sent ∙ e, empty)
        | inr fails ↦ inr fails
      ]

  expire-Kept :
      (typed : Bytes) (s : Input w) (armed : Bool)
      → s.outcome ≡ running
      → Kept typed s
      → Kept typed (expire s armed)
  expire-Kept typed s false r k = k
  expire-Kept typed s true r k = elim (flush_input-sent typed s r (running-Kept typed s r k)) [
    | inl (o, sent, empty) ↦
        Kept-running typed (record (flush_input s) { armed = false }) o
          (ap (λ (t : Bytes). l.sent (flush_input s).wire ++ t) empty
            ∙ append-nil (l.sent (flush_input s).wire)
            ∙ sent)
    | inr fails ↦ Kept-failed typed (record (flush_input s) { armed = false }) fails
  ]

  and_then-running :
      (s : Input w) (k : Input w → Input w) (o : Outcome) → o ≡ running → and_then s k o ≡ k s
  and_then-running s k o e = rw e refl

  and_then-failed :
      (s : Input w) (k : Input w → Input w) (o : Outcome) → o ≡ send_failed → and_then s k o ≡ s
  and_then-failed s k o e = rw e refl

  on_error-Kept :
      (typed : Bytes) (s : Input w) (err : TerminalError)
      → s.outcome ≡ running
      → l.sent s.wire ++ s.scanner.pending ≡ typed
      → Kept typed (on_error s err)
  on_error-Kept typed s no_error r e = Kept-running typed (begin_round s) r e
  on_error-Kept typed s end_of_file r e = elim (flush_input-sent typed s r e) [
    | inl (o, sent, empty) ↦ rw o sent
    | inr fails ↦ rw fails tt
  ]
  on_error-Kept typed s end_and_other r e = elim (flush_input-sent typed s r e) [
    | inl (o, sent, empty) ↦ rw o (
        ap (λ (t : Bytes). l.sent (flush_input s).wire ++ t) empty
        ∙ append-nil (l.sent (flush_input s).wire)
        ∙ sent)
    | inr fails ↦ rw fails tt
  ]
  on_error-Kept typed s shutdown_error r e = e
  on_error-Kept typed s other_error r e = e

  send_detach-Kept :
      (typed rest : Bytes) (s : Input w) (err : TerminalError)
      → l.sent s.wire ++ rest ≡ typed
      → is_ctrl_backslash rest ≡ true
      → Kept typed (send_detach err s)
  unfolding send_detach
  send_detach-Kept typed rest s err e key = elim (Option-cases (w.send s.wire frame_detach [])) [
    | inl fails ↦ rw (fails, send_detach) tt
    | inr (wire, goes) ↦
        rw (goes, send_detach)
          (
            rest,
            ap (λ (t : Bytes). t ++ rest)
                  (l.logs s.wire frame_detach [] goes ∙ append-nil (l.sent s.wire))
                ∙ e,
            key,
          )
  ]

  -- What a read that detaches leaves, or one that does not, behind the bytes that it sent.
  behind_read :
      (typed : Bytes) (s s' : Input w) (p : Bytes) (err : TerminalError)
      → l.sent s.wire ++ s.scanner.pending ≡ typed
      → let f = feed s.scanner p in
        s'.outcome ≡ running
        → l.sent s'.wire ≡ l.sent s.wire ++ f.forward
        → s'.scanner.pending ≡ f.scanner.pending
        → Kept (typed ++ p) (if f.detach then send_detach err s' else on_error s' err)
  behind_read typed s s' p err e o sent pending =
      let (found, keyed, plain) = feed_keeps s.scanner p in
      let all : l.sent s.wire ++ (s.scanner.pending ++ p) ≡ typed ++ p =
        sym (append_assoc (l.sent s.wire) s.scanner.pending p) ∙ ap (λ (t : Bytes). t ++ p) e in
      elim (Bool-cases (feed s.scanner p).detach) [
        | inl detaches ↦
            let same : l.sent s'.wire ≡ l.sent s.wire =
              sent ∙ ap (◌++◌ (l.sent s.wire)) (keyed detaches).0 ∙ append-nil (l.sent s.wire) in
            rw detaches (
              send_detach-Kept (typed ++ p) (s.scanner.pending ++ p) s' err
                (ap (λ (t : Bytes). t ++ (s.scanner.pending ++ p)) same ∙ all)
                (sym found ∙ detaches))
        | inr stays ↦ rw stays (
            on_error-Kept (typed ++ p) s' err o (
              ap (λ (t : Bytes). t ++ s'.scanner.pending) sent
              ∙ ap (λ (t : Bytes). (l.sent s.wire ++ (feed s.scanner p).forward) ++ t) pending
              ∙ append_assoc (l.sent s.wire) (feed s.scanner p).forward
                  (feed s.scanner p).scanner.pending
              ∙ ap (◌++◌ (l.sent s.wire)) (plain stays).0
              ∙ all))
      ]

  on_read-Kept :
      (typed : Bytes) (s : Input w) (p : Bytes) (err : TerminalError)
      → s.outcome ≡ running
      → Kept typed s
      → Kept (typed ++ p) (on_read s p err)
  unfolding on_read
  on_read-Kept typed s [] err r k =
      rw append-nil (on_error-Kept typed s err r (running-Kept typed s r k))
  on_read-Kept typed s (c ∷ p) err r k =
      let f = feed s.scanner (c ∷ p) in
      let s' = send_input (record s { scanner = f.scanner }) f.forward in
      let next : Input w → Input w = λ t. if f.detach then send_detach err t else on_error t err in
      elim (send_input-sent (record s { scanner = f.scanner }) f.forward r) [
        | inl (o, sent, pending) ↦
            subst (λ t. Kept (typed ++ c ∷ p) t) (sym (and_then-running s' next s'.outcome o))
              (behind_read typed s s' (c ∷ p) err (running-Kept typed s r k) o sent pending)
        | inr fails ↦
            subst (λ t. Kept (typed ++ c ∷ p) t) (sym (and_then-failed s' next s'.outcome fails))
              (Kept-failed (typed ++ c ∷ p) s' fails)
      ]

  -- In every run of the input loop, unless a send fails: while it runs, and when a read has failed,
  -- what was typed is what was sent followed by what the scanner holds; at the end of the input it is
  -- what was sent; and at a detach it is what was sent followed by bytes that hold the detach key.
  pub Typed-Kept : {typed : Bytes} {s : Input w} → Typed typed s → Kept typed s
  unfolding handle on_expired
  Typed-Kept (start wire empty) = ap (λ (t : Bytes). t ++ []) empty
  Typed-Kept (time_out {typed} {s} t r) = expire-Kept typed s s.armed r (Typed-Kept t)
  Typed-Kept (was_read {typed} {s} p err t r) = on_read-Kept typed s p err r (Typed-Kept t)
