-- ===== src/Daemon/Da.antt =====
-- daemon/da.go: the answers to Device Attributes queries.
pub mod Replies
pub mod Pieces
mod Tests
use bgx.Base.{
  ℕ, Bool, true, false, ◌&&◌, ◌||◌, List, [], ◌∷◌, ◌++◌, Bytes, codes, has_prefix, ◌==◌,
  if◌then◌else◌,
}

abbrev pub da1_query : Bytes
da1_query = 0x1b ∷ codes "[c"

abbrev pub da1_query_explicit : Bytes
da1_query_explicit = 0x1b ∷ codes "[0c"

abbrev pub da2_query : Bytes
da2_query = 0x1b ∷ codes "[>c"

abbrev pub da2_query_explicit : Bytes
da2_query_explicit = 0x1b ∷ codes "[>0c"

abbrev pub da1_response : Bytes
da1_response = 0x1b ∷ codes "[?62;22c"

abbrev pub da2_response : Bytes
da2_response = 0x1b ∷ codes "[>1;10;0c"

-- What the `switch` appends for the input from an introducer on.
unfoldable pub answer : Bytes → Bytes
answer rest =
    if has_prefix da2_query rest || has_prefix da2_query_explicit rest
    then da2_response
    else if has_prefix da1_query rest || has_prefix da1_query_explicit rest
    then da1_response
    else []

abbrev pub is_introducer : ℕ → ℕ → Bool
is_introducer c d = c == 0x1b && d == b'['

-- The loop over `data`, from the index `i` on; at `CSI ?` it goes on three bytes later.
unfoldable pub scan_from : Bytes → Bytes → Bytes
unfolding answer
scan_from [] out = out
scan_from (c ∷ []) out = out
scan_from (c ∷ d ∷ []) out =
    scan_from (d ∷ []) (if is_introducer c d then out ++ answer (c ∷ d ∷ []) else out)
scan_from (c ∷ d ∷ e ∷ r) out =
    let skip = scan_from r out in
    let next =
      scan_from (d ∷ e ∷ r) (if is_introducer c d then out ++ answer (c ∷ d ∷ e ∷ r) else out) in
    if is_introducer c d && e == b'?' then skip else next

unfoldable pub scan_device_attributes : Bytes → Bytes
scan_device_attributes data_bytes = scan_from data_bytes []
