-- ===== src/Daemon/Protocol.antt =====
-- daemon/protocol.go: the metadata of a session. Times are numbers.
use bgx.Base.{ℕ, Bool, List, Option, Bytes}
use bgx.Base.Int.{ℤ}

pub record Info : Type 0 where
  pub id : Bytes
  pub running : Bool
  pub pid : ℕ
  pub command : List Bytes
  pub metadata : List (Bytes × Bytes)
  pub started_at : ℕ
  pub ended_at : Option ℕ
  pub duration_ms : ℤ
  pub output_bytes : ℕ
  pub exit_code : Option ℤ
  pub killed : Bool
  pub error : Bytes
