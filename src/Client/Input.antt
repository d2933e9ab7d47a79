-- ===== src/Client/Input.antt =====
-- client_attach_input.go: the loop that reads the terminal and sends what is typed. The timer and the
-- reader are events, of which the loop takes one at a time.
pub mod Typed
mod Tests
use bgx.Base.{
  ℕ, Bool, true, false, List, [], ◌∷◌, ◌++◌, Option, none, some, Bytes, ◌==◌, if◌then◌else◌,
}
use bgx.Daemon.Frame.{FrameTag, frame_input, frame_detach}
use bgx.Client.CtrlKey.{DetachScanner, Fed, feed, flush}

-- What a read returns: nil, io.EOF, an error of shutting down, another, or one that joins io.EOF with
-- another. Joined with an error of shutting down, io.EOF is `end_of_file`.
pub data TerminalError : Type 0 where
  no_error end_of_file shutdown_error other_error end_and_other : TerminalError

pub data Event : Type 0 where
  expired : Event
  read : Bytes → TerminalError → Event

-- `detached` tells whether an error is joined.
pub data Outcome : Type 0 where
  running ended read_failed send_failed : Outcome
  detached : Bool → Outcome

-- The connection, to which a send may fail.
pub record Wire : Type 1 where
  pub State : Type 0
  pub send : State → FrameTag → Bytes → Option State

pub record Input (w : Wire) : Type 0 where
  pub wire : w.State
  pub scanner : DetachScanner
  pub armed : Bool
  pub outcome : Outcome

abbrev is_escape : Bytes → Bool
is_escape (c ∷ []) = c == 0x1b
is_escape _ = false

-- A round begins: the timer runs for a lone ESC.
abbrev pub begin_round : {w : Wire} → Input w → Input w
begin_round s = record s { armed = is_escape s.scanner.pending }

abbrev pub new_input : {w : Wire} → w.State → Input w
new_input wire = record {
  wire = wire;
  scanner = record { pending = [] };
  armed = false;
  outcome = running;
}

-- Sends bytes that are typed, if any.
unfoldable pub send_input : {w : Wire} → Input w → Bytes → Input w
send_input s [] = s
send_input {w} s (c ∷ p) = elim (w.send s.wire frame_input (c ∷ p)) [
  | none ↦ record s { outcome = send_failed }
  | some wire ↦ record s { wire = wire }
]

unfoldable pub flush_input : {w : Wire} → Input w → Input w
flush_input s =
    let (scanner, pending) = flush s.scanner in send_input (record s { scanner = scanner }) pending

-- What follows a send that went well.
abbrev pub and_then : {w : Wire} → Input w → (Input w → Input w) → Outcome → Input w
and_then s k running = k s
and_then s k _ = s

abbrev pub is_unexpected : TerminalError → Bool
is_unexpected other_error = true
is_unexpected end_and_other = true
is_unexpected _ = false

abbrev pub end_read : {w : Wire} → Input w → Input w
end_read s = record s { outcome = ended }

abbrev pub fail_read : {w : Wire} → Input w → Input w
fail_read s = record s { outcome = read_failed }

-- Behind the bytes of a read: its error.
abbrev pub on_error : {w : Wire} → Input w → TerminalError → Input w
on_error s no_error = begin_round s
on_error s end_of_file = let s' = flush_input s in and_then s' end_read s'.outcome
on_error s end_and_other = let s' = flush_input s in and_then s' fail_read s'.outcome
on_error s shutdown_error = record s { outcome = read_failed }
on_error s other_error = record s { outcome = read_failed }

unfoldable pub send_detach : {w : Wire} → TerminalError → Input w → Input w
send_detach {w} err s = elim (w.send s.wire frame_detach []) [
  | none ↦ record s { outcome = send_failed }
  | some wire ↦ record s { wire = wire; outcome = detached (is_unexpected err) }
]

unfoldable pub on_read : {w : Wire} → Input w → Bytes → TerminalError → Input w
on_read s [] err = on_error s err
on_read s (c ∷ p) err =
    let f = feed s.scanner (c ∷ p) in
    let s' = send_input (record s { scanner = f.scanner }) f.forward in
    and_then s' (λ t. if f.detach then send_detach err t else on_error t err) s'.outcome

abbrev pub expire : {w : Wire} → Input w → Bool → Input w
expire s true = record (flush_input s) { armed = false }
expire s false = s

unfoldable pub on_expired : {w : Wire} → Input w → Input w
on_expired s = expire s s.armed

unfoldable pub handle : {w : Wire} → Input w → Event → Input w
handle s expired = on_expired s
handle s (read p err) = on_read s p err
