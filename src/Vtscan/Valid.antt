-- ===== src/Vtscan/Valid.antt =====
-- The scanner's invariant, and the laws of `Advance`.
use bgx.Base.{ℕ, ◌≤◌, ◌<◌, ◌≡◌, refl, true, [], ◌∷◌, ◌++◌, Bytes, arith}
use bgx.Vtscan.{State, Scanner, initial, at_ground, step, advance}

-- A rune is at most three bytes short, and only the ground state is within one.
pub record IsValid (s : Scanner) : Type 0 where
  pub short : s.utf8_pending ≤ 3
  pub grounded : 0 < s.utf8_pending → s.st ≡ State.ground

pub initial-IsValid : IsValid initial
initial-IsValid = record { short = omega arith; grounded = λ _. refl }

pub step-IsValid : (s : Scanner) (b : ℕ) → IsValid s → IsValid (step s b)
unfolding step
step-IsValid s b v = ground arith

pub advance-IsValid : (s : Scanner) (p : Bytes) → IsValid s → IsValid (advance s p)
unfolding advance
advance-IsValid s [] v = v
advance-IsValid s (b ∷ p) v = advance-IsValid (step s b) p (step-IsValid s b v)

pub advance-append : (s : Scanner) (p q : Bytes) → advance s (p ++ q) ≡ advance (advance s p) q
unfolding advance
advance-append s [] q = refl
advance-append s (b ∷ p) q = advance-append (step s b) p q

-- `AtGround` holds of the zero value alone.
pub at_ground-initial : (s : Scanner) → at_ground s ≡ true → s ≡ initial
at_ground-initial s h = ground arith
