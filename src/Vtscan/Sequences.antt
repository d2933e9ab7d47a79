-- ===== src/Vtscan/Sequences.antt =====
-- Whole escape sequences and runes, and the streams that they make up.
use bgx.Base.{
  ℕ, suc, ◌≡◌, refl, ◌∙◌, Bool, true, false, ◌||◌, not, [], ◌∷◌, ◌++◌, Bytes, arith, length, All,
  within, ltb, ◌==◌, if◌then◌else◌,
}
use bgx.Vtscan.{State, Scanner, initial, at_ground, step}
use bgx.Vtscan.Atomic.{Finishes, Finishes-cons, Finishes-one, IsAtomic, IsAtomic-cons}

-- Control sequences.
abbrev is_csi : State → Bool
is_csi State.csi_entry = true
is_csi State.csi_param = true
is_csi State.csi_intermediate = true
is_csi State.csi_ignore = true
is_csi _ = false

step-is_csi :
    (s : Scanner) (b : ℕ)
    → is_csi s.st ≡ true
    → within 0x20 0x3f b ≡ true
    → (is_csi (step s b).st ≡ true) × ((step s b).utf8_pending ≡ s.utf8_pending)
unfolding step
step-is_csi s b c h = ground arith

step_csi_final :
    (s : Scanner) (b : ℕ)
    → is_csi s.st ≡ true
    → s.utf8_pending ≡ 0
    → within 0x40 0x7e b ≡ true
    → step s b ≡ initial
unfolding step
step_csi_final s b c z h = ground arith

is_csi-at_ground : (s : Scanner) → is_csi s.st ≡ true → at_ground s ≡ false
is_csi-at_ground s c = ground arith

-- `CSI params final`: parameter and intermediate bytes in any order, then a final byte.
csi-Finishes :
    (s : Scanner) (params : Bytes) (final : ℕ)
    → is_csi s.st ≡ true
    → s.utf8_pending ≡ 0
    → All (λ b. within 0x20 0x3f b ≡ true) params
    → within 0x40 0x7e final ≡ true
    → Finishes s (params ++ final ∷ [])
csi-Finishes s [] final c z h f =
    Finishes-one s final (is_csi-at_ground s c) (step_csi_final s final c z f)
csi-Finishes s (b ∷ params) final c z (h, hs) f =
    let (c', z') = step-is_csi s b c h in
    Finishes-cons s b (params ++ final ∷ []) (is_csi-at_ground s c)
      (csi-Finishes (step s b) params final c' (z' ∙ z) hs f)

-- A control sequence, `ESC [`, any parameter and intermediate bytes and a final byte, is never cut
-- inside, and leaves the scanner at ground.
pub csi-IsAtomic :
    (params : Bytes) (final : ℕ)
    → All (λ b. within 0x20 0x3f b ≡ true) params
    → within 0x40 0x7e final ≡ true
    → IsAtomic (0x1b ∷ 0x5b ∷ (params ++ final ∷ []))
unfolding step
csi-IsAtomic params final h f =
    IsAtomic-cons 0x1b _ (Finishes-cons _ 0x5b _ refl (csi-Finishes _ params final refl refl h f))

-- Control strings: DCS, OSC, SOS, PM and APC.
abbrev is_string : State → Bool
is_string State.dcs_entry = true
is_string State.dcs_param = true
is_string State.dcs_intermediate = true
is_string State.dcs_passthrough = true
is_string State.dcs_ignore = true
is_string State.osc_string = true
is_string State.string_ignore = true
is_string _ = false

-- CAN, SUB and ESC leave every control string, and BEL leaves an OSC string.
abbrev pub is_payload : ℕ → Bool
is_payload b = not (b == 0x18 || b == 0x1a || b == 0x1b || b == 0x07)

abbrev pub is_introducer : ℕ → Bool
is_introducer b = b == 0x50 || b == 0x5d || b == 0x58 || b == 0x5e || b == 0x5f

step-is_string :
    (s : Scanner) (b : ℕ)
    → is_string s.st ≡ true
    → is_payload b ≡ true
    → (is_string (step s b).st ≡ true) × ((step s b).utf8_pending ≡ s.utf8_pending)
unfolding step
step-is_string s b c h = ground arith

step_introducer :
    (b : ℕ)
    → is_introducer b ≡ true
    → let s = step (step initial 0x1b) b in (is_string s.st ≡ true) × (s.utf8_pending ≡ 0)
unfolding step
step_introducer b h = ground arith

string-Finishes :
    (s : Scanner) (payload : Bytes)
    → is_string s.st ≡ true
    → s.utf8_pending ≡ 0
    → All (λ b. is_payload b ≡ true) payload
    → Finishes s (payload ++ 0x1b ∷ 0x5c ∷ [])
string-Finishes s [] c z h =
    Finishes-cons s 0x1b (0x5c ∷ []) (ground arith)
      (Finishes-one (step s 0x1b) 0x5c (unfold step in ground arith) (unfold step in ground arith))
string-Finishes s (b ∷ payload) c z (h, hs) =
    let (c', z') = step-is_string s b c h in
    Finishes-cons s b (payload ++ 0x1b ∷ 0x5c ∷ []) (ground arith)
      (string-Finishes (step s b) payload c' (z' ∙ z) hs)

-- A control string with its 7-bit terminator, `ESC P`, `ESC ]`, `ESC X`, `ESC ^` or `ESC _`, a
-- payload and `ESC \`, is never cut inside, and leaves the scanner at ground.
pub string-IsAtomic :
    (introducer : ℕ) (payload : Bytes)
    → is_introducer introducer ≡ true
    → All (λ b. is_payload b ≡ true) payload
    → IsAtomic (0x1b ∷ introducer ∷ (payload ++ 0x1b ∷ 0x5c ∷ []))
string-IsAtomic introducer payload i h =
    let (c, z) = step_introducer introducer i in
    IsAtomic-cons 0x1b _
      (Finishes-cons _ introducer _ (unfold step in refl) (string-Finishes _ payload c z h))

-- Runes. A lead byte tells how many continuation bytes follow it.
abbrev pub continuations : ℕ → ℕ
continuations b =
    if ltb b 0xc0
    then 0
    else if ltb b 0xe0
    then 1
    else if ltb b 0xf0
    then 2
    else if ltb b 0xf8
    then 3
    else 0

abbrev pub IsContinuation : ℕ → Type 0
IsContinuation b = within 0x80 0xbf b ≡ true

rune-Finishes :
    (s : Scanner) (c : ℕ) (cs : Bytes)
    → s.st ≡ State.ground
    → s.utf8_pending ≡ suc (length cs)
    → All IsContinuation (c ∷ cs)
    → Finishes s (c ∷ cs)
rune-Finishes s c [] g z (h, hs) = Finishes-one s c (ground arith) (unfold step in ground arith)
rune-Finishes s c (d ∷ cs) g z (h, hs) =
    Finishes-cons s c (d ∷ cs) (ground arith)
      (rune-Finishes (step s c) d cs (unfold step in ground arith) (unfold step in ground arith) hs)

-- A rune of two to four bytes, a lead byte and just the continuation bytes that it announces, is
-- never cut inside, and leaves the scanner at ground.
pub rune-IsAtomic :
    (lead c : ℕ) (cs : Bytes)
    → continuations lead ≡ suc (length cs)
    → All IsContinuation (c ∷ cs)
    → IsAtomic (lead ∷ c ∷ cs)
rune-IsAtomic lead c cs n h = IsAtomic-cons lead (c ∷ cs) (
    rune-Finishes (step initial lead) c cs (unfold step in ground arith)
      (unfold step in ground arith) h)
