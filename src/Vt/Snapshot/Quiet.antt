-- ===== src/Vt/Snapshot/Quiet.antt =====
-- Sequences of which nothing is followed, such as a position with numbers in it.
use bgx.Base.{
  ◌^◌, ◌%◌, ℕ, zero, suc, ◌/◌, Bool, true, false, ◌||◌, [], ◌∷◌, ◌++◌, Bytes, ◌==◌, ltb, within,
  if◌then◌else◌, ◌≡◌, refl, digits_from, All, ◌∙◌, ap, sym, subst, arith, inl, inr, Bool-cases,
  length,
}
use bgx.Base.{◌+◌, Option, none, some, decimal, All-append, append_assoc}
use bgx.Vt.Snapshot.{saved_position}
use bgx.Vtscan.{Scanner, State, initial, step}
use bgx.Vt.{Vt, note_byte, track_sequence}
use bgx.Vt.Tracked.{blind, follow, follow_byte}
use bgx.Vt.Snapshot.ModesReplay.{Replayed}

-- Written at ground it leaves the terminal at ground, on its screen and with its modes.
pub record IsQuiet (p : Bytes) : Type 0 where
  pub replays : (v : Vt blind) → v.scan ≡ initial → Replayed v (follow v p) v.modes

pub nil-IsQuiet : IsQuiet []
nil-IsQuiet = record { replays = λ v idle. record { scan = idle; modes = refl; alt = refl } }

abbrev pub is_parameter : ℕ → Bool
is_parameter b = within 0x30 0x39 b || b == 0x3b

digits_from-parameters :
    (fuel n : ℕ) (out : Bytes)
    → All (λ b. is_parameter b ≡ true) out
    → All (λ b. is_parameter b ≡ true) (digits_from fuel n out)
unfolding digits_from
digits_from-parameters zero n out h = h
digits_from-parameters (suc fuel) n out h = elim (Bool-cases (ltb n 10)) [
  | inl small ↦ rw small (ground arith, h)
  | inr large ↦ rw large (digits_from-parameters fuel (n / 10) _ (ground arith, h))
]

-- Inside a control sequence that is not private.
abbrev in_csi : Scanner
in_csi = record { st = State.csi_param; utf8_pending = 0 }

abbrev inside : Vt blind → ℕ → Bytes → Vt blind
inside v first rest = record v { scan = in_csi; seq = 0x1b ∷ b'[' ∷ first ∷ rest }

parameter_step : (b : ℕ) → is_parameter b ≡ true → step in_csi b ≡ in_csi
unfolding step
parameter_step b h = ground arith

parameter_entered :
    (b : ℕ)
    → is_parameter b ≡ true
    → step (record { st = State.csi_entry; utf8_pending = 0 }) b ≡ in_csi
unfolding step
parameter_entered b h = ground arith

not_escape : (b : ℕ) → is_parameter b ≡ true → (b == 0x1b) ≡ false
not_escape b h = ground arith

not_private : (b : ℕ) → is_parameter b ≡ true → (b == b'?') ≡ false
not_private b h = ground arith

-- The sequence in progress keeps its beginning.
kept : ℕ → Bytes → ℕ → Bytes
kept first rest b = if ltb (suc (suc (suc (length rest)))) 64 then rest ++ b ∷ [] else rest

noted-kept :
    (first : ℕ) (rest : Bytes) (b : ℕ)
    → (if ltb (suc (suc (suc (length rest)))) 64
        then 0x1b ∷ b'[' ∷ first ∷ (rest ++ b ∷ [])
        else 0x1b ∷ b'[' ∷ first ∷ rest)
      ≡ 0x1b ∷ b'[' ∷ first ∷ kept first rest b
unfolding kept
noted-kept first rest b = elim (Bool-cases (ltb (suc (suc (suc (length rest)))) 64)) [
  | inl fits ↦ rw fits refl
  | inr full ↦ rw full refl
]

follow_byte-inside :
    (v : Vt blind) (first : ℕ) (rest : Bytes) (b : ℕ)
    → is_parameter b ≡ true
    → follow_byte (inside v first rest) b ≡ inside v first (kept first rest b)
unfolding note_byte
follow_byte-inside v first rest b h =
    rw (not_escape b h, parameter_step b h)
      (ap (λ (q : Bytes). record v { scan = in_csi; seq = q }) (noted-kept first rest b))

-- A sequence that is not private changes nothing.
track_sequence-public :
    (v : Vt blind) (first : ℕ) (rest : Bytes)
    → (first == b'?') ≡ false
    → track_sequence v (0x1b ∷ b'[' ∷ first ∷ rest) ≡ v
unfolding track_sequence
track_sequence-public v first rest h = elim (Bool-cases (ltb (length rest) 2)) [
  | inl short ↦ rw short refl
  | inr long ↦ rw (long, h) refl
]

final_step : step in_csi b'H' ≡ initial
unfolding step
final_step = refl

final-Replayed :
    (v : Vt blind) (first : ℕ) (rest : Bytes)
    → (first == b'?') ≡ false
    → Replayed v (follow_byte (inside v first rest) b'H') v.modes
unfolding note_byte
final-Replayed v first rest h =
    rw (final_step, noted-kept first rest b'H')
      (subst (λ (w : Vt blind). Replayed v w v.modes)
        (sym (track_sequence-public _ first (kept first rest b'H') h))
        (record { scan = refl; modes = refl; alt = refl }))

abbrev opened : Vt blind → Vt blind
opened v = record v {
  scan = record { st = State.csi_entry; utf8_pending = 0 };
  seq = 0x1b ∷ b'[' ∷ [];
}

follow-opened : (v : Vt blind) → follow (record v { scan = initial }) (0x1b ∷ b'[' ∷ []) ≡ opened v
unfolding note_byte step
follow-opened v = refl

follow_byte-opened :
    (v : Vt blind) (b : ℕ) → is_parameter b ≡ true → follow_byte (opened v) b ≡ inside v b []
unfolding note_byte
follow_byte-opened v b h = rw (not_escape b h, parameter_entered b h) refl

-- A sequence without a number that varies: it can be run.
pub fixed-IsQuiet :
    (p : Bytes)
    → ((v : Vt blind)
        → let w = follow (record v { scan = initial }) p in
          (w.scan ≡ initial) × (w.modes ≡ v.modes) × (w.alt ≡ v.alt))
    → IsQuiet p
fixed-IsQuiet p runs = record {
  replays = λ v idle.
      let start : v ≡ record v { scan = initial } =
        ap (λ (sc : Scanner). record v { scan = sc }) idle in
      let (scan, modes, alt) = runs v in
      subst (λ (u : Vt blind). Replayed v (follow u p) v.modes) (sym start)
        (record { scan = scan; modes = modes; alt = alt });
}

-- CSI, parameters that begin with a digit or a semicolon, H.
follow-inside :
    (v : Vt blind) (first : ℕ) (rest ps : Bytes)
    → (first == b'?') ≡ false
    → All (λ b. is_parameter b ≡ true) ps
    → Replayed v (follow (inside v first rest) (ps ++ b'H' ∷ [])) v.modes
follow-inside v first rest [] h hs = final-Replayed v first rest h
follow-inside v first rest (b ∷ ps) h (hb, hs) =
    subst (λ (w : Vt blind). Replayed v (follow w (ps ++ b'H' ∷ [])) v.modes)
      (sym (follow_byte-inside v first rest b hb))
      (follow-inside v first (kept first rest b) ps h hs)

pub position-IsQuiet :
    (b : ℕ) (ps : Bytes)
    → All (λ b. is_parameter b ≡ true) (b ∷ ps)
    → IsQuiet (0x1b ∷ b'[' ∷ b ∷ (ps ++ b'H' ∷ []))
position-IsQuiet b ps (hb, hs) = record {
  replays = λ v idle.
      let start : v ≡ record v { scan = initial } =
        ap (λ (sc : Scanner). record v { scan = sc }) idle in
      let at_first : follow v (0x1b ∷ b'[' ∷ b ∷ []) ≡ inside v b [] =
        ap (λ (u : Vt blind). follow u (0x1b ∷ b'[' ∷ b ∷ [])) start
        ∙ ap (λ (u : Vt blind). follow_byte u b) (follow-opened v)
        ∙ follow_byte-opened v b hb in
      subst (λ (w : Vt blind). Replayed v (follow w (ps ++ b'H' ∷ [])) v.modes) (sym at_first)
        (follow-inside v b [] ps (not_private b hb) hs);
}

-- CSI, parameters, H.
cursor-IsQuiet :
    (ps : Bytes) → All (λ b. is_parameter b ≡ true) ps → IsQuiet (0x1b ∷ b'[' ∷ (ps ++ b'H' ∷ []))
unfolding note_byte track_sequence step
cursor-IsQuiet [] h = fixed-IsQuiet (0x1b ∷ b'[' ∷ b'H' ∷ []) (λ v. (refl, refl, refl))
cursor-IsQuiet (b ∷ ps) h = position-IsQuiet b ps h

pub saved_position-IsQuiet : (saved : Option (ℕ × ℕ)) → IsQuiet (saved_position saved)
saved_position-IsQuiet none = nil-IsQuiet
saved_position-IsQuiet (some (x, y)) =
    let rows = digits_from-parameters 20 ((y + 1) % 2 ^ 16) [] tt in
    let columns = digits_from-parameters 20 ((x + 1) % 2 ^ 16) [] tt in
    let both =
      All-append _ (decimal ((y + 1) % 2 ^ 16)) (b';' ∷ decimal ((x + 1) % 2 ^ 16)) rows
        (refl, columns) in
    subst IsQuiet
      (ap (λ (q : Bytes). 0x1b ∷ b'[' ∷ q)
        (append_assoc (decimal ((y + 1) % 2 ^ 16)) (b';' ∷ decimal ((x + 1) % 2 ^ 16)) (b'H' ∷ [])))
      (cursor-IsQuiet (decimal ((y + 1) % 2 ^ 16) ++ b';' ∷ decimal ((x + 1) % 2 ^ 16)) both)
