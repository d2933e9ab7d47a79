-- ===== src/Client/Shutdown.antt =====
-- client_attach.go: what an attachment takes out of its errors before it returns them.
pub mod Kept
mod Tests
use bgx.Base.{Bool, true, false, ◌&&◌, ◌||◌, Option, none, some, ◌∷◌, [], Bytes, if◌then◌else◌}
use bgx.Errors.{
  Cause, canceled, net_closed, os_closed, closed_pipe, eof, attach_detached, Err, leaf, wrapped,
  hollow, joined, Errs, end, also, join_all, also_some,
}

-- `err == errAttachDetached`: the error itself, not one around it.
abbrev pub is_attach_detached : Err → Bool
is_attach_detached (leaf attach_detached) = true
is_attach_detached _ = false

unfoldable mutual
  pub without_attach_detached : Err → Option Err
  without_attach_detached (joined es) = join_all (each_without_attach_detached es)
  without_attach_detached (leaf attach_detached) = none
  without_attach_detached (leaf c) = some (leaf c)
  without_attach_detached (wrapped message e) = some (wrapped message e)
  without_attach_detached (hollow message) = some (hollow message)

  pub each_without_attach_detached : Errs → Errs
  each_without_attach_detached end = end
  each_without_attach_detached (also e es) =
      also_some (without_attach_detached e) (each_without_attach_detached es)

-- The causes that a local shutdown brings about.
abbrev pub is_expected : Bool → Cause → Bool
is_expected include_eof canceled = true
is_expected include_eof net_closed = true
is_expected include_eof os_closed = true
is_expected include_eof closed_pipe = true
is_expected include_eof eof = include_eof
is_expected include_eof _ = false

-- `prunedAttachError`: the message of the whole error around what is left of the error under it.
abbrev pub pruned_attach_error : Bytes → Option Err → Option Err
pruned_attach_error message none = none
pruned_attach_error message (some e) = some (wrapped message e)

unfoldable mutual
  pub without_expected_attach_shutdown_errors : Bool → Err → Option Err
  without_expected_attach_shutdown_errors include_eof (joined es) =
      join_all (each_without_expected include_eof es)
  without_expected_attach_shutdown_errors include_eof (wrapped message e) =
      pruned_attach_error message (without_expected_attach_shutdown_errors include_eof e)
  without_expected_attach_shutdown_errors include_eof (hollow message) = none
  without_expected_attach_shutdown_errors include_eof (leaf c) =
      if is_expected include_eof c then none else some (leaf c)

  pub each_without_expected : Bool → Errs → Errs
  each_without_expected include_eof end = end
  each_without_expected include_eof (also e es) =
      also_some (without_expected_attach_shutdown_errors include_eof e)
        (each_without_expected include_eof es)

-- The two filters of an error that may be nil.
abbrev pub shutdown_errors : Bool → Option Err → Option Err
shutdown_errors include_eof none = none
shutdown_errors include_eof (some e) = without_expected_attach_shutdown_errors include_eof e

abbrev pub detach_errors : Option Err → Option Err
detach_errors none = none
detach_errors (some e) = without_attach_detached e
