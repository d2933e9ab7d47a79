-- ===== src/Vt/Snapshot/Tracking.antt =====
-- Whatever is written, just the tracked modes are held, each once and in their order.
use bgx.Base.{
  ℕ, Bool, true, false, not, ◌||◌, ◌&&◌, List, [], ◌∷◌, Option, none, some, Bytes, ltb, ◌==◌,
  length, take, ◌-◌, if◌then◌else◌, ◌≡◌, refl, ap, ◌∙◌, map, inl, inr, Bool-cases,
}
use bgx.Vt.{
  Engine, Vt, new_vt, Modes, tracked_modes, set_mode, note_byte, track_sequence, track_private,
  is_ris, apply_mode, apply_params, parse_mode_param, final_byte, split_from, sequence_ended, write,
}
use bgx.Vt.Tracked.{blind, follow, follow_byte, followed, followed-write}
use bgx.Vt.Snapshot.ModesReplay.{modes_of}

-- `modes` has the tracked modes as its keys.
abbrev pub IsTracking : Modes → Type 0
IsTracking ms = (f : ℕ → Bool) × (ms ≡ modes_of f)

abbrev entry : ℕ → Bool → ℕ × Bool
entry m on = (m, on)

same_mode :
    (b : Bool) (m : ℕ) (on off : Bool)
    → (if b then entry m on else entry m off) ≡ entry m (if b then on else off)
same_mode true m on off = refl
same_mode false m on off = refl

set_mode-map :
    (n : ℕ) (on : Bool) (f : ℕ → Bool) (ms : List ℕ)
    → set_mode n on (map (λ m. (m, f m)) ms) ≡ map (λ m. (m, if m == n then on else f m)) ms
unfolding set_mode
set_mode-map n on f [] = refl
set_mode-map n on f (m ∷ ms) = rw (same_mode (m == n) m on (f m), set_mode-map n on f ms) refl

set_mode-IsTracking :
    (n : ℕ) (on : Bool) (ms : Modes) → IsTracking ms → IsTracking (set_mode n on ms)
set_mode-IsTracking n on ms (f, h) =
    ((λ m. if m == n then on else f m), ap (set_mode n on) h ∙ set_mode-map n on f tracked_modes)

apply_mode-IsTracking :
    (v : Vt blind) (on : Bool) (n : Option ℕ)
    → IsTracking v.modes
    → IsTracking (apply_mode v on n).modes
apply_mode-IsTracking v on none h = h
apply_mode-IsTracking v on (some n) h = elim (Bool-cases (n == 1049)) [
  | inl saves ↦ rw saves h
  | inr other ↦ elim (Bool-cases (n == 47 || n == 1047)) [
    | inl switches ↦ rw (other, switches) h
    | inr mode ↦ rw (other, mode) (set_mode-IsTracking n on v.modes h)
  ]
]

apply_params-IsTracking :
    (ps : List Bytes) (v : Vt blind) (on : Bool)
    → IsTracking v.modes
    → IsTracking (apply_params v on ps).modes
apply_params-IsTracking [] v on h = h
apply_params-IsTracking (p ∷ ps) v on h =
    apply_params-IsTracking ps (apply_mode v on (parse_mode_param p)) on
      (apply_mode-IsTracking v on (parse_mode_param p) h)

track_private-IsTracking :
    (v : Vt blind) (seq : Bytes) → IsTracking v.modes → IsTracking (track_private v seq).modes
track_private-IsTracking v [] h = h
track_private-IsTracking v (c ∷ []) h = h
track_private-IsTracking v (c ∷ d ∷ []) h = h
track_private-IsTracking v (c ∷ d ∷ q ∷ rest) h =
    elim (Bool-cases
      (ltb (length rest) 2 || not (c == 0x1b) || not (d == b'[') || not (q == b'?'))) [
        | inl other ↦ rw other h
        | inr private ↦
            elim (Bool-cases (not (final_byte rest == b'h') && not (final_byte rest == b'l'))) [
              | inl other ↦ rw (private, other) h
              | inr sets ↦
                  rw (private, sets)
                    (apply_params-IsTracking (split_from [] (take (length rest - 1) rest)) v _ h)
            ]
      ]

track_sequence-IsTracking :
    (v : Vt blind) (seq : Bytes) → IsTracking v.modes → IsTracking (track_sequence v seq).modes
unfolding track_sequence
track_sequence-IsTracking v seq h = elim (Bool-cases (is_ris seq)) [
  | inl ris ↦ rw ris ((λ m. m == 25), refl)
  | inr other ↦ rw other (track_private-IsTracking v seq h)
]

note_byte-modes : (v : Vt blind) (b : ℕ) → (note_byte v b).modes ≡ v.modes
unfolding note_byte
note_byte-modes v b = refl

follow_byte-IsTracking :
    (v : Vt blind) (b : ℕ) → IsTracking v.modes → IsTracking (follow_byte v b).modes
follow_byte-IsTracking v b (f, h) =
    let noted : IsTracking (note_byte v b).modes = (f, note_byte-modes v b ∙ h) in
    elim (Bool-cases (sequence_ended v (note_byte v b))) [
      | inl ended ↦ rw ended (track_sequence-IsTracking (note_byte v b) (note_byte v b).seq noted)
      | inr goes_on ↦ rw goes_on noted
    ]

follow-IsTracking : (p : Bytes) (v : Vt blind) → IsTracking v.modes → IsTracking (follow v p).modes
follow-IsTracking [] v h = h
follow-IsTracking (b ∷ p) v h = follow-IsTracking p (follow_byte v b) (follow_byte-IsTracking v b h)

pub new_vt-IsTracking : (e : Engine) (t : e.Term) → IsTracking (new_vt e t).modes
new_vt-IsTracking e t = ((λ m. m == 25), refl)

pub write-IsTracking :
    {e : Engine} (t : Vt e) (p : Bytes) → IsTracking t.modes → IsTracking (write t p).modes
write-IsTracking t p h =
    let (f, is) = follow-IsTracking p (followed t) h in
    (f, ap (λ (v : Vt blind). v.modes) (followed-write t p) ∙ is)
