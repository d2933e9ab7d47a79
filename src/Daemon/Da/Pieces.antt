-- ===== src/Daemon/Da/Pieces.antt =====
-- The answers to an output that is given as text, queries and reports.
use bgx.Base.{
  ◌≡◌, sym, ◌∙◌, List, [], ◌∷◌, ◌++◌, Bytes, All, arith, append-nil, append_assoc, codes, flatten,
  map,
}
use bgx.Daemon.Da.{
  scan_from, scan_device_attributes, da1_response, da2_response, da1_query, da2_query,
  da1_query_explicit, da2_query_explicit,
}
use bgx.Daemon.Da.Replies.{IsPlain, scan_from_text, scan_from-private}

-- `text` is free of ESC, and so is what a private sequence, `CSI ? body`, goes on with.
pub data Piece : Type 0 where
  text : Bytes → Piece
  ask1 ask1_explicit ask2 ask2_explicit : Piece
  private_sequence : Bytes → Piece

abbrev pub spelled : Piece → Bytes
spelled (text t) = t
spelled ask1 = da1_query
spelled ask1_explicit = da1_query_explicit
spelled ask2 = da2_query
spelled ask2_explicit = da2_query_explicit
spelled (private_sequence body) = 0x1b ∷ b'[' ∷ b'?' ∷ body

abbrev pub expected : Piece → Bytes
expected (text t) = []
expected ask1 = da1_response
expected ask1_explicit = da1_response
expected ask2 = da2_response
expected ask2_explicit = da2_response
expected (private_sequence body) = []

abbrev pub IsPiece : Piece → Type 0
IsPiece (text t) = All IsPlain t
IsPiece (private_sequence body) = All IsPlain body
IsPiece _ = Unit

scan_piece :
    (p : Piece) (rest out : Bytes)
    → IsPiece p
    → scan_from (spelled p ++ rest) out ≡ scan_from rest (out ++ expected p)
scan_piece (text t) rest out h = rw append-nil (scan_from_text t rest out h)
scan_piece ask1 rest out h =
    unfold scan_from in scan_from_text (codes "[c") rest (out ++ da1_response) (ground arith)
scan_piece ask1_explicit rest out h =
    unfold scan_from in scan_from_text (codes "[0c") rest (out ++ da1_response) (ground arith)
scan_piece ask2 rest out h =
    unfold scan_from in scan_from_text (codes "[>c") rest (out ++ da2_response) (ground arith)
scan_piece ask2_explicit rest out h =
    unfold scan_from in scan_from_text (codes "[>0c") rest (out ++ da2_response) (ground arith)
scan_piece (private_sequence body) rest out h =
    scan_from-private (body ++ rest) out ∙ rw append-nil (scan_from_text body rest out h)

scan_pieces :
    (ps : List Piece) (out : Bytes)
    → All IsPiece ps
    → scan_from (flatten (map spelled ps)) out ≡ out ++ flatten (map expected ps)
scan_pieces [] out h = unfold scan_from in sym (append-nil out)
scan_pieces (p ∷ ps) out (h, hs) =
    scan_piece p (flatten (map spelled ps)) out h
    ∙ scan_pieces ps (out ++ expected p) hs
    ∙ append_assoc out (expected p) (flatten (map expected ps))

-- Each Device Attributes query in an output is answered by its response, in order, whatever text
-- and private sequences (such as the terminal's own reports) stand between them.
pub scan_device_attributes-pieces :
    (ps : List Piece)
    → All IsPiece ps
    → scan_device_attributes (flatten (map spelled ps)) ≡ flatten (map expected ps)
unfolding scan_device_attributes
scan_device_attributes-pieces ps h = scan_pieces ps [] h
