-- ===== src/Daemon/Closed.antt =====
-- daemon/daemon.go: what a session takes out of the errors of its connection handlers.
pub mod Kept
mod Tests
use bgx.Base.{Bool, true, false, Bytes, Option, none, some, ◌≡◌, refl, if◌then◌else◌}
use bgx.Errors.{
  Cause, net_closed, Err, leaf, wrapped, hollow, joined, Errs, end, also, join, join_all, also_some,
  causes, Omits,
}

abbrev pub is_net_closed : Cause → Bool
is_net_closed net_closed = true
is_net_closed _ = false

-- Whether `withoutNetErrClosed` gives back the very error that it is given, unless nil: what
-- `errors.Join` gives is new.
abbrev pub is_same : Err → Bool
is_same (joined es) = false
is_same (wrapped message e) = is_same e
is_same _ = true

-- The error, or what is left of the one under it if that is another.
abbrev pub without_wrapper : Bool → Bytes → Err → Option Err → Option Err
without_wrapper same message e none = none
without_wrapper same message e (some child) = if same then some (wrapped message e) else some child

unfoldable mutual
  pub without_net_err_closed : Err → Option Err
  without_net_err_closed (joined es) = join_all (each_without_net_err_closed es)
  without_net_err_closed (wrapped message e) =
      without_wrapper (is_same e) message e (without_net_err_closed e)
  without_net_err_closed (hollow message) = none
  without_net_err_closed (leaf c) = if is_net_closed c then none else some (leaf c)

  pub each_without_net_err_closed : Errs → Errs
  each_without_net_err_closed end = end
  each_without_net_err_closed (also e es) =
      also_some (without_net_err_closed e) (each_without_net_err_closed es)

-- `recordHandlerError` of an error that is not nil, on `handlerErr`.
unfoldable pub record_handler_error : Option Err → Err → Option Err
record_handler_error handler_err e = elim (without_net_err_closed e) [
  | none ↦ handler_err
  | some left ↦ join handler_err (some left)
]
