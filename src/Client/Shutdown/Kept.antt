-- ===== src/Client/Shutdown/Kept.antt =====
-- The filters keep every cause that they do not name.
use bgx.Base.{Bool, refl, Option, none, some, Bytes}
use bgx.Errors.{Cause, Err, Errs, causes, Omits, leaf, wrapped, hollow, joined, end, also}
use bgx.Errors.Causes.{AllOmit, leaf-Omits, also-AllOmit, joined-Omits, hollow-Omits, end-AllOmit}
use bgx.Client.Shutdown.{
  is_expected, pruned_attach_error, without_expected_attach_shutdown_errors, each_without_expected,
}

pruned-Omits :
    {p : Cause → Bool} {e : Err} (message : Bytes) (r : Option Err)
    → Omits p e r
    → Omits p (wrapped message e) (pruned_attach_error message r)
unfolding causes
pruned-Omits message none h = record { left = h.left; absent = λ n. refl }
pruned-Omits message (some e') h = record { left = h.left; absent = λ n. cc (h.absent n) }

mutual
  unfolding without_expected_attach_shutdown_errors

  expected-Omits :
      (b : Bool) (e : Err) → Omits (is_expected b) e (without_expected_attach_shutdown_errors b e)
  expected-Omits b (leaf c) = leaf-Omits (is_expected b) c
  expected-Omits b (wrapped message e) = pruned-Omits message _ (expected-Omits b e)
  expected-Omits b (hollow message) = hollow-Omits message
  expected-Omits b (joined es) = joined-Omits (each-AllOmit b es)

  each-AllOmit : (b : Bool) (es : Errs) → AllOmit (is_expected b) es (each_without_expected b es)
  each-AllOmit b end = end-AllOmit
  each-AllOmit b (also e es) = also-AllOmit (expected-Omits b e) (each-AllOmit b es)

-- `withoutExpectedAttachShutdownErrors` takes away exactly the causes that a local shutdown brings
-- about (and io.EOF if it is told so), whatever wraps or joins them, keeps every other cause in its
-- place, and gives nil exactly if no other is there.
pub without_expected-Omits :
    (include_eof : Bool) (e : Err)
    → Omits (is_expected include_eof) e (without_expected_attach_shutdown_errors include_eof e)
without_expected-Omits include_eof e = expected-Omits include_eof e
