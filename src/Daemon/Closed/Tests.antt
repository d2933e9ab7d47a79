-- ===== src/Daemon/Closed/Tests.antt =====
-- Runs of the filter of closed connections.
use bgx.Base.{not, ◌≡◌, refl, codes, some, ◌++◌}
use bgx.Errors.{
  Err, net_closed, eof, canceled, leaf, wrapped, joined, end, also, causes, causes_of, filter,
}
use bgx.Daemon.Closed.{is_net_closed, without_net_err_closed, record_handler_error}
use bgx.Daemon.Closed.Kept.{causes-record_handler_error}

abbrev both : Err
both = joined (also (leaf net_closed) (also (leaf eof) end))

-- A wrapper is lost around an error of which nothing has been taken away, if that was joined.
wrapper_is_lost :
    without_net_err_closed (wrapped (codes "attach") (joined (also (leaf eof) end)))
    ≡ some (joined (also (leaf eof) end))
unfolding without_net_err_closed
wrapper_is_lost = refl

wrapper_is_kept :
    without_net_err_closed (wrapped (codes "attach") (leaf eof))
    ≡ some (wrapped (codes "attach") (leaf eof))
unfolding without_net_err_closed
wrapper_is_kept = refl

causes-record_handler_error_example :
    causes_of (record_handler_error (some (leaf canceled)) both)
    ≡ causes_of (some (leaf canceled)) ++ filter (λ c. not (is_net_closed c)) (causes both)
causes-record_handler_error_example = causes-record_handler_error (some (leaf canceled)) both
