-- ===== src/Errors.antt =====
-- Go's error values as the functions of client_attach.go and daemon/daemon.go see them: a leaf, an
-- error with `Unwrap() error`, and one with `Unwrap() []error`; a nil error is `none`.
pub mod Causes
use bgx.Base.{
  ◌≡◌, ℕ, Bool, true, false, not, ◌||◌, List, [], ◌∷◌, ◌++◌, Option, none, some, Bytes, codes,
  if◌then◌else◌,
}

-- What `errors.Is` tells apart; any other error is its text.
pub data Cause : Type 0 where
  canceled net_closed os_closed closed_pipe eof short_write attach_detached : Cause
  other : Bytes → Cause

-- `wrapped` holds the message and the error under it, `hollow` an error whose `Unwrap` gives nil.
mutual
  pub data Err : Type 0 where
    leaf : Cause → Err
    wrapped : Bytes → Err → Err
    hollow : Bytes → Err
    joined : Errs → Err

  pub data Errs : Type 0 where
    end : Errs
    also : Err → Errs → Errs

abbrev pub cause_text : Cause → Bytes
cause_text canceled = codes "context canceled"
cause_text net_closed = codes "use of closed network connection"
cause_text os_closed = codes "file already closed"
cause_text closed_pipe = codes "io: read/write on closed pipe"
cause_text eof = codes "EOF"
cause_text short_write = codes "short write"
cause_text attach_detached = codes "attach detached"
cause_text (other text) = text

-- `Error()`; joined errors stand on lines of their own.
unfoldable mutual
  pub text : Err → Bytes
  text (leaf c) = cause_text c
  text (wrapped message e) = message
  text (hollow message) = message
  text (joined es) = lines es

  pub lines : Errs → Bytes
  lines end = []
  lines (also e es) = text e ++ more_lines es

  pub more_lines : Errs → Bytes
  more_lines end = []
  more_lines (also e es) = b'\n' ∷ text e ++ more_lines es

-- `fmt.Errorf("<front>: %w", e)`.
unfoldable pub errorf : Bytes → Err → Err
unfolding text
errorf front e = wrapped (front ++ codes ": " ++ text e) e

-- `errors.Join` of errors that are not nil.
abbrev pub join_all : Errs → Option Err
join_all end = none
join_all (also e es) = some (joined (also e es))

-- An error that is not nil in front of the others.
abbrev pub also_some : Option Err → Errs → Errs
also_some none es = es
also_some (some e) es = also e es

-- `errors.Join(a, b)`.
abbrev pub join : Option Err → Option Err → Option Err
join a b = join_all (also_some a (also_some b end))

-- The leaves, from left to right.
unfoldable mutual
  pub causes : Err → List Cause
  causes (leaf c) = c ∷ []
  causes (wrapped message e) = causes e
  causes (hollow message) = []
  causes (joined es) = causes_all es

  pub causes_all : Errs → List Cause
  causes_all end = []
  causes_all (also e es) = causes e ++ causes_all es

abbrev pub causes_of : Option Err → List Cause
causes_of none = []
causes_of (some e) = causes e

abbrev pub filter : {A : Type 0} → (A → Bool) → List A → List A
filter p [] = []
filter p (x ∷ xs) = let rest = filter p xs in if p x then x ∷ rest else rest

-- A filter of errors takes away exactly the leaves that `p` holds of, and an error that is left has
-- a leaf left.
pub record Omits (p : Cause → Bool) (e : Err) (result : Option Err) : Type 0 where
  pub left : causes_of result ≡ filter (λ c. not (p c)) (causes e)
  pub absent : causes_of result ≡ [] → result ≡ none
