-- ===== src/Daemon/Da/Tests.antt =====
-- Device Attributes queries in concrete outputs.
use bgx.Base.{◌≡◌, refl, List, [], ◌∷◌, ◌++◌, codes, arith, flatten, map}
use bgx.Daemon.Da.Pieces.{
  Piece, text, ask1, ask2_explicit, private_sequence, spelled, expected,
  scan_device_attributes-pieces,
}
use bgx.Daemon.Da.Replies.{IsReplies, scan_device_attributes_idle}
use bgx.Daemon.Da.{da1_query, da1_response, da2_response, scan_from, scan_device_attributes}

abbrev output : List Piece
output = text (codes "$ ") ∷ ask1 ∷ private_sequence (codes "62c") ∷ ask2_explicit ∷ []

answers : scan_device_attributes (flatten (map spelled output)) ≡ da1_response ++ da2_response
unfolding scan_device_attributes scan_from
answers = refl

-- A query that two reads split is answered in neither.
split_query : (scan_device_attributes (0x1b ∷ []) ≡ []) × (scan_device_attributes (codes "[c") ≡ [])
unfolding scan_device_attributes scan_from
split_query = (refl, refl)

scan_device_attributes-pieces_example :
    scan_device_attributes (flatten (map spelled output)) ≡ flatten (map expected output)
scan_device_attributes-pieces_example = scan_device_attributes-pieces output (ground arith)

scan_device_attributes_idle_example :
    IsReplies (scan_device_attributes da1_query)
    × (scan_device_attributes (scan_device_attributes da1_query) ≡ [])
scan_device_attributes_idle_example = scan_device_attributes_idle da1_query
