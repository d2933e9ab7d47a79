-- ===== src/Daemon/Terminal.antt =====
-- The terminal emulator that the daemon renders to (vt.Terminal, over the linked emulator library),
-- and the PTY's window size. What fails returns `none` or `false`.
use bgx.Base.{ℕ, ◌≡◌, Bool, Option, some, Bytes}

pub record Emulator : Type 1 where
  pub Screen : Type 0
  pub write : Screen → Bytes → Option Screen
  pub snapshot : Screen → Option Bytes
  pub resize : Screen → ℕ → ℕ → Option Screen
  pub set_size : ℕ → ℕ → Bool

-- A client's terminal, which is sent bytes and draws them, at the daemon's size. The daemon's
-- emulator draws what it is written in the same way and fails in nothing, and its snapshot is
-- complete: it brings a terminal in any state to the state that it was taken of.
pub record Replays (e : Emulator) : Type 0 where
  pub draw : e.Screen → Bytes → e.Screen
  pub draws : (t : e.Screen) (p : Bytes) → e.write t p ≡ some (draw t p)
  pub snap : e.Screen → Bytes
  pub snaps : (t : e.Screen) → e.snapshot t ≡ some (snap t)
  pub complete : (v t : e.Screen) → draw v (snap t) ≡ t
