-- ===== src/Base/Decimal.antt =====
-- Numbers in decimal.
use Prim.Native.Nat.{ℕ, zero, suc, ◌+◌, ◌/◌, ◌%◌}
use mathlib.Core.List.{[], ◌∷◌}
use bgx.Base.Tests.{ltb, if◌then◌else◌}
use bgx.Base.Lists.{Bytes}

-- The decimal digits of a number; fuel for a digit more than the number has.
unfoldable pub digits_from : ℕ → ℕ → Bytes → Bytes
digits_from zero n out = out
digits_from (suc fuel) n out =
    let more = digits_from fuel (n / 10) ((b'0' + n % 10) ∷ out) in
    if ltb n 10 then (b'0' + n) ∷ out else more

-- `%d`, for a number below 10 ^ 20, which an int64 is.
abbrev pub decimal : ℕ → Bytes
decimal n = digits_from 20 n []
