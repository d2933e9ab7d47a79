-- ===== src/Client/Shutdown/Tests.antt =====
-- Runs of the filters.
use bgx.Base.{◌≡◌, refl, true, [], codes, some}
use bgx.Errors.{
  Err, net_closed, eof, attach_detached, other, leaf, wrapped, joined, end, also, Omits,
}
use bgx.Client.Shutdown.{
  is_expected, without_attach_detached, without_expected_attach_shutdown_errors,
}
use bgx.Client.Shutdown.Kept.{without_expected-Omits}

abbrev mixed : Err
mixed = joined (
    also (wrapped (codes "attach: close stream") (leaf net_closed))
      (also (leaf attach_detached) (also (leaf (other (codes "x"))) (also (leaf eof) end))))

shutdown_of_mixed :
    without_expected_attach_shutdown_errors true mixed
    ≡ some (joined (also (leaf attach_detached) (also (leaf (other (codes "x"))) end)))
unfolding without_expected_attach_shutdown_errors
shutdown_of_mixed = refl

-- Only the error itself counts as the detachment.
detach_of_mixed :
    without_attach_detached
      (joined (also (wrapped [] (leaf attach_detached)) (also (leaf attach_detached) end)))
    ≡ some (joined (also (wrapped [] (leaf attach_detached)) end))
unfolding without_attach_detached
detach_of_mixed = refl

without_expected-Omits_example :
    Omits (is_expected true) mixed (without_expected_attach_shutdown_errors true mixed)
without_expected-Omits_example = without_expected-Omits true mixed
