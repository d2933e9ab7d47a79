-- ===== src/Vtscan/Tests.antt =====
-- The scanner on concrete streams.
use bgx.Base.{◌≡◌, refl, List, [], ◌∷◌, ◌++◌, some, none, Bytes, codes, arith, flatten}
use bgx.Base.Int.{pos, negsuc}
use bgx.Vtscan.Atomic.{IsAtomic}
use bgx.Vtscan.Cut.{LargestCut, safe_cut-LargestCut}
use bgx.Vtscan.Sequences.{csi-IsAtomic, rune-IsAtomic}
use bgx.Vtscan.Valid.{IsValid, initial-IsValid, advance-IsValid}
use bgx.Vtscan.{initial, advance, step, safe_cut}

-- "ab", `ESC [ 3 1 m`, "é" as two bytes.
abbrev colour : Bytes
colour = 0x1b ∷ codes "[31m"

abbrev stream : Bytes
stream = codes "ab" ++ (colour ++ (0xc3 ∷ 0xa9 ∷ []))

cuts :
    (safe_cut initial stream (pos 9) ≡ some 9)
    × (safe_cut initial stream (pos 8) ≡ some 7)
    × (safe_cut initial stream (pos 5) ≡ some 2)
    × (safe_cut initial stream (negsuc 0) ≡ none)
unfolding safe_cut advance step
cuts = (refl, refl, refl, refl)

safe_cut-LargestCut_example : LargestCut initial stream 5 (safe_cut initial stream (pos 5))
safe_cut-LargestCut_example = safe_cut-LargestCut initial stream 5

advance-IsValid_example : IsValid (advance initial stream)
advance-IsValid_example = advance-IsValid initial stream initial-IsValid

pen : IsAtomic (0x1b ∷ 0x5b ∷ (codes "31" ++ b'm' ∷ []))
pen = csi-IsAtomic (codes "31") b'm' (ground arith) refl

letter : IsAtomic (0xc3 ∷ 0xa9 ∷ [])
letter = rune-IsAtomic 0xc3 0xa9 [] refl (ground arith)

abbrev pieces : List Bytes
pieces = colour ∷ (0xc3 ∷ 0xa9 ∷ []) ∷ []

pieces_cut : safe_cut initial (flatten pieces) (pos 6) ≡ some 5
unfolding safe_cut advance step
pieces_cut = refl
