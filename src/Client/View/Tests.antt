-- ===== src/Client/View/Tests.antt =====
-- What is painted of a screen.
use bgx.Base.{◌≡◌, refl, true, false, codes, ◌++◌, digits_from}
use bgx.Vt.Snapshot.{esc}
use bgx.Client.View.{new_view, hint_on_row, painting_of}

-- The last row is kept for the hint.
hint_below :
    painting_of (new_view 23 true) (codes "hi")
    ≡ esc (codes "[?2026h")
      ++ esc (codes "[1;23r")
      ++ esc (codes "[2J")
      ++ esc (codes "[H")
      ++ esc (codes "[m")
      ++ codes "hi"
      ++ hint_on_row 24
      ++ esc (codes "[?2026l")
unfolding digits_from
hint_below = refl

-- A screen of a row has no room for it.
no_hint :
    painting_of (new_view 1 false) (codes "hi")
    ≡ esc (codes "[?2026h")
      ++ esc (codes "[r")
      ++ esc (codes "[2J")
      ++ esc (codes "[H")
      ++ esc (codes "[m")
      ++ codes "hi"
      ++ esc (codes "[?2026l")
no_hint = refl
