-- ===== src/Scrollback/Text.antt =====
-- scrollback/store.go: the notice that stands for the discarded middle of a stream.
use bgx.Base.{
  ℕ, zero, suc, ◌+◌, ◌*◌, ◌^◌, ◌/◌, ◌%◌, ◌&&◌, ◌||◌, [], ◌∷◌, ◌++◌, Bytes, codes, ltb, leb, ◌==◌,
  if◌then◌else◌, flatten, digits_from, decimal,
}

-- The quotient rounded to the nearest number, a half to the even one.
abbrev pub round_half_even : ℕ → ℕ → ℕ
round_half_even a b =
    let q = a / b in
    let twice = 2 * (a % b) in if ltb b twice || (twice == b && q % 2 == 1) then q + 1 else q

-- The distance between the float64 numbers about `n`: 1 below 2 ^ 53, and twice as much for each bit
-- more, of which an int64 has ten.
unfoldable pub spacing : ℕ → ℕ → ℕ → ℕ
spacing zero n s = s
spacing (suc fuel) n s =
    let wider = spacing fuel n (s * 2) in if ltb n (2 ^ 53 * s) then s else wider

-- `float64(n)`, the nearest.
abbrev pub float64 : ℕ → ℕ
float64 n = let s = spacing 10 n 1 in round_half_even n s * s

-- `%.1f` of n / d, for n a float64 and d a power of two, by which float64 numbers divide exactly.
abbrev pub one_decimal : ℕ → ℕ → Bytes
one_decimal n d =
    let tenths = round_half_even (n * 10) d in
    decimal (tenths / 10) ++ (b'.' ∷ decimal (tenths % 10))

abbrev unit_letter : ℕ → Bytes
unit_letter exp =
    if exp == 0
    then codes "K"
    else if exp == 1
    then codes "M"
    else if exp == 2
    then codes "G"
    else if exp == 3
    then codes "T"
    else if exp == 4
    then codes "P"
    else codes "E"

-- The loop over `v`; an int64 takes at most five rounds.
unfoldable pub humanize_loop : ℕ → ℕ → ℕ → ℕ → ℕ × ℕ
humanize_loop zero v div exp = (div, exp)
humanize_loop (suc fuel) v div exp =
    let more = humanize_loop fuel (v / 1024) (div * 1024) (exp + 1) in
    if leb 1024 v then more else (div, exp)

unfoldable pub humanize_bytes : ℕ → Bytes
unfolding digits_from humanize_loop spacing
humanize_bytes n =
    let (div, exp) = humanize_loop 6 (n / 1024) 1024 0 in
    if ltb n 1024
    then decimal n ++ codes "B"
    else one_decimal (float64 n) div ++ (unit_letter exp ++ codes "B")

-- ESC c.
abbrev pub reset_preamble : Bytes
reset_preamble = 0x1b ∷ b'c' ∷ []

abbrev crlf : Bytes
crlf = 0x0d ∷ 0x0a ∷ []

-- U+2500 in UTF-8.
abbrev bar : Bytes
bar = 0xe2 ∷ 0x94 ∷ 0x80 ∷ []

abbrev ten_bars : Bytes
ten_bars = bar ++ bar ++ bar ++ bar ++ bar ++ bar ++ bar ++ bar ++ bar ++ bar

abbrev pub truncation_rule : Bytes
truncation_rule = ten_bars ++ ten_bars ++ ten_bars ++ ten_bars

unfoldable pub append_truncation : Bytes → ℕ → Bytes
unfolding humanize_bytes
append_truncation dst n =
    dst
    ++ flatten (
        crlf
        ∷ crlf
        ∷ truncation_rule
        ∷ crlf
        ∷ codes "[...] truncated "
        ∷ humanize_bytes n
        ∷ crlf
        ∷ truncation_rule
        ∷ crlf
        ∷ crlf
        ∷ reset_preamble
        ∷ [])
