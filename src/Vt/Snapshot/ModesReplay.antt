-- ===== src/Vt/Snapshot/ModesReplay.antt =====
-- A terminal that is written the mode sequences of another has its modes.
use bgx.Base.{
  ℕ, Bool, true, false, List, [], ◌∷◌, ◌++◌, ◌≡◌, refl, digits_from, map, All, ◌∙◌, ap, sym, subst,
}
use bgx.Vtscan.{Scanner, initial, step}
use bgx.Vt.{Vt, Modes, tracked_modes, set_mode, note_byte, track_sequence, parse_mode_param}
use bgx.Vt.Tracked.{blind, follow, follow-append}
use bgx.Vt.Snapshot.{mode_sequence, sequences_of, mode_is_set}

abbrev with_mode : ℕ → Bool → Vt blind → Vt blind
with_mode m on v = record v {
  scan = initial;
  seq = mode_sequence m on;
  modes = set_mode m on v.modes;
}

-- The sequence of the mode, written at ground, sets it and does nothing else.
abbrev Sets : ℕ → Type 0
Sets m =
    ((v : Vt blind)
      → follow (record v { scan = initial }) (mode_sequence m true) ≡ with_mode m true v)
    × ((v : Vt blind)
        → follow (record v { scan = initial }) (mode_sequence m false) ≡ with_mode m false v)

tracked_modes-Sets : All Sets tracked_modes
unfolding note_byte track_sequence parse_mode_param digits_from step
tracked_modes-Sets = (
  (λ v. refl, λ v. refl),
  (
    (λ v. refl, λ v. refl),
    (
      (λ v. refl, λ v. refl),
      (
        (λ v. refl, λ v. refl),
        (
          (λ v. refl, λ v. refl),
          ((λ v. refl, λ v. refl), ((λ v. refl, λ v. refl), ((λ v. refl, λ v. refl), tt))),
        ),
      ),
    ),
  ),
)

-- Any choice of the modes.
abbrev pub modes_of : (ℕ → Bool) → Modes
modes_of f = map (λ m. (m, f m)) tracked_modes

abbrev set_all : Modes → List ℕ → Modes → Modes
set_all src [] dst = dst
set_all src (m ∷ ms) dst = set_all src ms (set_mode m (mode_is_set m src) dst)

-- At ground again, with the modes and on the same screen as `v`.
pub record Replayed (v w : Vt blind) (ms : Modes) : Type 0 where
  pub scan : w.scan ≡ initial
  pub modes : w.modes ≡ ms
  pub alt : w.alt ≡ v.alt

follow-mode_sequence :
    (m : ℕ) (on : Bool) (v : Vt blind)
    → Sets m
    → v.scan ≡ initial
    → follow v (mode_sequence m on) ≡ with_mode m on v
follow-mode_sequence m true v (h, l) idle =
    ap (λ (sc : Scanner). follow (record v { scan = sc }) (mode_sequence m true)) idle ∙ h v
follow-mode_sequence m false v (h, l) idle =
    ap (λ (sc : Scanner). follow (record v { scan = sc }) (mode_sequence m false)) idle ∙ l v

follow-sequences_of :
    (src : Modes) (ms : List ℕ) (v : Vt blind)
    → All Sets ms
    → v.scan ≡ initial
    → Replayed v (follow v (sequences_of src ms)) (set_all src ms v.modes)
follow-sequences_of src [] v h idle = record { scan = idle; modes = refl; alt = refl }
follow-sequences_of src (m ∷ ms) v (h, hs) idle =
    let on = mode_is_set m src in
    let step_is : follow v (mode_sequence m on ++ sequences_of src ms)
        ≡ follow (with_mode m on v) (sequences_of src ms) =
      follow-append v (mode_sequence m on) (sequences_of src ms)
      ∙ ap (λ (u : Vt blind). follow u (sequences_of src ms))
          (follow-mode_sequence m on v h idle) in
    let rest = follow-sequences_of src ms (with_mode m on v) hs refl in
    subst (λ (w : Vt blind). Replayed v w (set_all src (m ∷ ms) v.modes)) (sym step_is)
      (record { scan = rest.scan; modes = rest.modes; alt = rest.alt })

-- All the tracked modes are set, whatever they were.
set_all-modes_of : (f g : ℕ → Bool) → set_all (modes_of g) tracked_modes (modes_of f) ≡ modes_of g
unfolding set_mode
set_all-modes_of f g = refl

pub replay_modes :
    (v : Vt blind) (src : Modes) (f g : ℕ → Bool)
    → src ≡ modes_of f
    → v.modes ≡ modes_of g
    → v.scan ≡ initial
    → Replayed v (follow v (sequences_of src tracked_modes)) src
replay_modes v src f g hs hv idle =
    let r = follow-sequences_of src tracked_modes v tracked_modes-Sets idle in
    let same : set_all src tracked_modes v.modes ≡ src = rw (hs, hv) (set_all-modes_of g f) in
    record { scan = r.scan; modes = r.modes ∙ same; alt = r.alt }
