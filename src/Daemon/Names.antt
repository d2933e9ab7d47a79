-- ===== src/Daemon/Names.antt =====
-- daemon/retention.go: the file names of ids and namespaces. `url.QueryEscape` and `QueryUnescape` of
-- the standard library are written out.
pub mod Escape
mod Tests
use bgx.Base.{
  ℕ, zero, suc, ◌+◌, ◌-◌, ◌*◌, ◌/◌, ◌%◌, Bool, true, false, ◌||◌, List, [], ◌∷◌, ◌++◌, Option, none,
  some, Bytes, codes, ltb, within, ◌==◌, if◌then◌else◌,
}
use bgx.Daemon.Retention.{namespace}

-- The bytes that stand for themselves: letters, digits, "-", "_", "." and "~".
abbrev pub unreserved : ℕ → Bool
unreserved c =
    within b'a' b'z' c
    || within b'A' b'Z' c
    || within b'0' b'9' c
    || c == b'-'
    || c == b'_'
    || c == b'.'
    || c == b'~'

abbrev pub upper_hex : ℕ → ℕ
upper_hex n = if ltb n 10 then b'0' + n else 55 + n

unfoldable pub escape_byte : ℕ → Bytes
escape_byte c =
    if unreserved c
    then c ∷ []
    else if c == b' '
    then b'+' ∷ []
    else b'%' ∷ upper_hex (c / 16) ∷ upper_hex (c % 16) ∷ []

unfoldable pub encode_name : Bytes → Bytes
encode_name [] = []
encode_name (c ∷ p) = escape_byte c ++ encode_name p

unfoldable pub unhex : ℕ → Option ℕ
unhex c =
    if within b'0' b'9' c
    then some (c - b'0')
    else if within b'a' b'f' c
    then some (c - 87)
    else if within b'A' b'F' c
    then some (c - 55)
    else none

-- Within an escape: before its digits, or behind the first.
pub data Unescaping : Type 0 where
  plain percent : Unescaping
  digit : ℕ → Unescaping

abbrev pub cons_some : ℕ → Option Bytes → Option Bytes
cons_some c none = none
cons_some c (some p) = some (c ∷ p)

abbrev pub with_digit : Option ℕ → (ℕ → Option Bytes) → Option Bytes
with_digit none k = none
with_digit (some n) k = k n

unfoldable pub unescape_from : Unescaping → Bytes → Option Bytes
unescape_from plain [] = some []
unescape_from percent [] = none
unescape_from (digit n) [] = none
unescape_from plain (c ∷ s) =
    let escape = unescape_from percent s in
    let next = unescape_from plain s in
    if c == b'%' then escape else cons_some (if c == b'+' then b' ' else c) next
unescape_from percent (c ∷ s) = with_digit (unhex c) (λ n. unescape_from (digit n) s)
unescape_from (digit n) (c ∷ s) =
    let next = unescape_from plain s in with_digit (unhex c) (λ m. cons_some (n * 16 + m) next)

abbrev pub query_unescape : Bytes → Option Bytes
query_unescape s = unescape_from plain s

abbrev pub global_namespace_dir : Bytes
global_namespace_dir = codes "_global"

abbrev pub dir_name : Bytes → Bytes
dir_name [] = global_namespace_dir
dir_name (c ∷ ns) = encode_name (c ∷ ns)

-- The directory of `namespaceDir` beneath the directory of retained sessions.
unfoldable pub namespace_dir : Bytes → Bytes
namespace_dir id = dir_name (namespace id)
