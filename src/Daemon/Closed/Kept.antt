-- ===== src/Daemon/Closed/Kept.antt =====
-- The filter keeps every cause but net.ErrClosed, though not every message.
use bgx.Base.{
  Bool, true, false, not, ◌++◌, Bytes, Option, none, some, ◌≡◌, refl, ap, append-nil, sym, ◌∙◌, ◌⊎◌,
  inl, inr, if◌then◌else◌,
}
use bgx.Errors.{
  Cause, Err, leaf, wrapped, hollow, joined, Errs, end, also, join, causes, causes_of, filter,
  Omits,
}
use bgx.Errors.Causes.{
  AllOmit, leaf-Omits, also-AllOmit, joined-Omits, hollow-Omits, end-AllOmit, causes-join,
}
use bgx.Daemon.Closed.{
  is_net_closed, is_same, without_wrapper, without_net_err_closed, each_without_net_err_closed,
  record_handler_error,
}

leaf_same :
    (b : Bool) (c : Cause)
    → let r = if b then none else some (leaf c) in (r ≡ none) ⊎ (r ≡ some (leaf c))
leaf_same true c = inl refl
leaf_same false c = inr refl

wrapped_same :
    (same : Bool) (message : Bytes) (e : Err) (r : Option Err)
    → same ≡ true
    → let w = without_wrapper same message e r in (w ≡ none) ⊎ (w ≡ some (wrapped message e))
wrapped_same same message e none h = inl refl
wrapped_same same message e (some child) h = rw h (inr refl)

same_is :
    (e : Err)
    → is_same e ≡ true
    → (without_net_err_closed e ≡ none) ⊎ (without_net_err_closed e ≡ some e)
unfolding without_net_err_closed
same_is (leaf c) h = leaf_same (is_net_closed c) c
same_is (wrapped message e) h = wrapped_same (is_same e) message e (without_net_err_closed e) h
same_is (hollow message) h = inl refl
same_is (joined es) h = cc

wrapper_kept :
    {p : Cause → Bool} (same : Bool) (message : Bytes) (e : Err) (r : Option Err)
    → (same ≡ true → (r ≡ none) ⊎ (r ≡ some e))
    → Omits p e r
    → Omits p (wrapped message e) (without_wrapper same message e r)
unfolding causes
wrapper_kept same message e none h w = record { left = w.left; absent = λ n. refl }
wrapper_kept true message e (some child) h w = elim (h refl) [
  | inl gone ↦ cc gone
  | inr is ↦
      let same_causes : causes_of (some child) ≡ causes e = ap causes_of is in
      record { left = sym same_causes ∙ w.left; absent = λ n. cc (w.absent (same_causes ∙ n)) }
]
wrapper_kept false message e (some child) h w = record { left = w.left; absent = w.absent }

mutual
  unfolding without_net_err_closed

  closed-Omits : (e : Err) → Omits is_net_closed e (without_net_err_closed e)
  closed-Omits (leaf c) = leaf-Omits is_net_closed c
  closed-Omits (wrapped message e) =
      wrapper_kept (is_same e) message e (without_net_err_closed e) (same_is e) (closed-Omits e)
  closed-Omits (hollow message) = hollow-Omits message
  closed-Omits (joined es) = joined-Omits (each-AllOmit es)

  each-AllOmit : (es : Errs) → AllOmit is_net_closed es (each_without_net_err_closed es)
  each-AllOmit end = end-AllOmit
  each-AllOmit (also e es) = also-AllOmit (closed-Omits e) (each-AllOmit es)

recorded :
    (handler_err : Option Err) (e : Err) (r : Option Err)
    → Omits is_net_closed e r
    → causes_of (elim r [ none ↦ handler_err | some left ↦ join handler_err (some left) ])
      ≡ causes_of handler_err ++ filter (λ c. not (is_net_closed c)) (causes e)
recorded handler_err e none w = rw (sym w.left) (sym (append-nil (causes_of handler_err)))
recorded handler_err e (some left) w =
    causes-join handler_err (some left) ∙ ap (causes_of handler_err ++◌) w.left

-- `recordHandlerError` adds to the causes recorded so far, behind them, every cause of the error in
-- its order but net.ErrClosed, whatever wraps or joins them.
pub causes-record_handler_error :
    (handler_err : Option Err) (e : Err)
    → causes_of (record_handler_error handler_err e)
      ≡ causes_of handler_err ++ filter (λ c. not (is_net_closed c)) (causes e)
unfolding record_handler_error
causes-record_handler_error handler_err e =
    recorded handler_err e (without_net_err_closed e) (closed-Omits e)
