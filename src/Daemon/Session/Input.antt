-- ===== src/Daemon/Session/Input.antt =====
-- The input queue: what is accepted reaches the PTY in order and untorn.
use bgx.Base.{
  ℕ, ◌+◌, ◌≤◌, ◌≡◌, refl, sym, ap, ◌∙◌, Bool, true, false, not, ◌&&◌, ◌||◌, inl, inr, List, [], ◌∷◌,
  ◌++◌, Option, none, some, Bytes, ltb, leb, if◌then◌else◌, flatten, flatten-append, length,
  length-append, length-drop, take, drop, take-append-drop, take-append_le, arith, Bool-cases,
  append-nil, append_assoc,
}
use bgx.Daemon.Terminal.{Emulator}
use bgx.Daemon.Session.{Session, pty_input_cap, queue_input, pump_start, pump_finish, WriteError}

-- Whether there is room for an input, and anyone to take it.
abbrev accepts : {e : Emulator} → Session e → Bytes → Bool
accepts s p = not (s.ended || s.closing) && leb (length s.input_buf + length p) pty_input_cap

-- The runs of the queue: inputs that come at any time, and the pump's writes, each of which writes a
-- front of the copy that it was given. `accepted` are the inputs that there was room for, and
-- `written` is what the PTY has taken. Other steps of the session leave the queue as it is.
pub data Queued {e : Emulator} : List Bytes → Bytes → Session e → Type 1 where
  start : {s : Session e} → s.input_buf ≡ [] → s.writing ≡ none → Queued [] [] s
  came :
      {accepted : List Bytes} {written : Bytes} {s : Session e} (p : Bytes)
      → Queued accepted written s
      → Queued (if accepts s p then accepted ++ p ∷ [] else accepted) written (queue_input s p)
  began :
      {accepted : List Bytes} {written : Bytes} {s s' : Session e}
      → Queued accepted written s
      → pump_start s ≡ some s'
      → Queued accepted written s'
  wrote :
      {accepted : List Bytes} {written : Bytes} {s : Session e} (chunk : Bytes) (n : ℕ)
      (err : WriteError)
      → Queued accepted written s
      → s.writing ≡ some chunk
      → n ≤ length chunk
      → Queued accepted (written ++ take n chunk) (pump_finish s n err (length chunk))
  other :
      {accepted : List Bytes} {written : Bytes} {s s' : Session e}
      → Queued accepted written s
      → s'.input_buf ≡ s.input_buf
      → s'.writing ≡ s.writing
      → Queued accepted written s'

-- The copy is still at the front of the queue.
abbrev pub InFront : Option Bytes → Bytes → Type 0
InFront none buf = Unit
InFront (some chunk) buf = (rest : Bytes) × (buf ≡ chunk ++ rest)

pub record Tiled {e : Emulator} (accepted : List Bytes) (written : Bytes) (s : Session e)
    : Type 0 where
  pub tiles : flatten accepted ≡ written ++ s.input_buf
  pub bounded : length s.input_buf ≤ pty_input_cap
  pub in_front : InFront s.writing s.input_buf

InFront-append :
    (writing : Option Bytes) (buf p : Bytes) → InFront writing buf → InFront writing (buf ++ p)
InFront-append none buf p h = tt
InFront-append (some chunk) buf p (rest, e) = (rest ++ p, rw e (append_assoc chunk rest p))

module _ {e : Emulator} where
  queue_input-Tiled :
      (accepted : List Bytes) (written : Bytes) (s : Session e) (p : Bytes)
      → Tiled accepted written s
      → Tiled (if accepts s p then accepted ++ p ∷ [] else accepted) written (queue_input s p)
  unfolding queue_input
  queue_input-Tiled accepted written s [] i = elim (Bool-cases (accepts s [])) [
    | inl room ↦ rw room (record {
      tiles = flatten-append accepted [] ∙ append-nil (flatten accepted) ∙ i.tiles;
      bounded = i.bounded;
      in_front = i.in_front;
    })
    | inr no_room ↦ rw no_room i
  ]
  queue_input-Tiled accepted written s (c ∷ p) i = elim (Bool-cases (s.ended || s.closing)) [
    | inl over ↦ rw over i
    | inr live ↦ elim (Bool-cases (ltb pty_input_cap (length s.input_buf + length (c ∷ p)))) [
      | inl full ↦
          let no_room : leb (length s.input_buf + length (c ∷ p)) pty_input_cap ≡ false =
            ground (arith, full) in
          rw (live, full, no_room) i
      | inr fits ↦
          let room : leb (length s.input_buf + length (c ∷ p)) pty_input_cap ≡ true =
            ground (arith, fits) in
          rw (live, fits, room)
            (record {
              tiles =
                  flatten-append accepted (c ∷ p)
                  ∙ ap (λ (t : Bytes). t ++ c ∷ p) i.tiles
                  ∙ append_assoc written s.input_buf (c ∷ p);
              bounded = ground (arith, fits, length-append s.input_buf (c ∷ p));
              in_front = InFront-append s.writing s.input_buf (c ∷ p) i.in_front;
            })
    ]
  ]

  pump_start_lem :
      (s : Session e) {s' : Session e}
      → pump_start s ≡ some s'
      → s' ≡ record s { writing = some s.input_buf }
  unfolding pump_start
  pump_start_lem s {s'} h = go s.input_buf refl
    where
      go : (buf : Bytes) → s.input_buf ≡ buf → s' ≡ record s { writing = some s.input_buf }
      go [] same = cc (rw (same, pump_start) at h)
      go (c ∷ p) same = rw same (cc (rw (same, pump_start) at h))

  pump_finish-Tiled :
      (accepted : List Bytes) (written : Bytes) (s : Session e) (chunk rest : Bytes) (n : ℕ)
      (err : WriteError)
      → s.input_buf ≡ chunk ++ rest
      → n ≤ length chunk
      → Tiled accepted written s
      → Tiled accepted (written ++ take n chunk) (pump_finish s n err (length chunk))
  unfolding pump_finish
  pump_finish-Tiled accepted written s chunk rest n err same le i =
      let cut : take n chunk ++ drop n s.input_buf ≡ s.input_buf =
        ap (λ (t : Bytes). t ++ drop n s.input_buf)
          (sym (take-append_le n chunk rest le) ∙ ap (take n) (sym same))
        ∙ take-append-drop n s.input_buf in
      record {
        tiles =
            i.tiles
            ∙ ap (◌++◌ written) (sym cut)
            ∙ sym (append_assoc written (take n chunk) (drop n s.input_buf));
        bounded = omega (arith, i.bounded, length-drop n s.input_buf);
        in_front = tt;
      }

  -- In every run of the input queue, the inputs that there was room for are, one after the other and
  -- each whole, what the PTY has taken followed by the queue, which is never longer than its cap, and
  -- the copy that the pump is writing is the front of the queue.
  pub Queued-Tiled :
      {accepted : List Bytes} {written : Bytes} {s : Session e}
      → Queued accepted written s
      → Tiled accepted written s
  unfolding pump_start pump_finish
  Queued-Tiled (start empty idle) = record {
    tiles = sym empty;
    bounded = rw empty (omega arith);
    in_front = rw idle tt;
  }
  Queued-Tiled (came {accepted} {written} {s} p q) =
      queue_input-Tiled accepted written s p (Queued-Tiled q)
  Queued-Tiled (began {s = s} q b) =
      let i = Queued-Tiled q in
      rw (pump_start_lem s b) (record {
        tiles = i.tiles;
        bounded = i.bounded;
        in_front = ([], sym (append-nil s.input_buf));
      })
  Queued-Tiled (wrote {accepted} {written} {s} chunk n err q w le) =
      let i = Queued-Tiled q in
      let (rest, same) = rw w at i.in_front in
      pump_finish-Tiled accepted written s chunk rest n err same le i
  Queued-Tiled (other q same idle) =
      let i = Queued-Tiled q in
      record {
        tiles = rw same i.tiles;
        bounded = rw same i.bounded;
        in_front = rw (same, idle) i.in_front;
      }
