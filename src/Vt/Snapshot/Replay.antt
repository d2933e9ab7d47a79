-- ===== src/Vt/Snapshot/Replay.antt =====
-- A terminal that replays a snapshot is on the screen and has the modes of the one it was taken of.
use bgx.Base.{
  ℕ, Bool, true, false, ◌++◌, Option, some, Bytes, codes, ◌≡◌, refl, sym, ap, ◌∙◌, subst, inl, inr,
  Bool-cases,
}
use bgx.Vtscan.{Scanner, initial, step}
use bgx.Vt.{Engine, Vt, Modes, tracked_modes, note_byte, track_sequence, parse_mode_param, write}
use bgx.Vt.Tracked.{blind, follow, follow-append, followed, followed-write}
use bgx.Vt.Snapshot.{
  esc, snapshot_prefix, bypass, to_primary, to_alternate, saved_position, mode_sequences,
  sequences_of, snapshot, alternate_part,
}
use bgx.Vt.Snapshot.ModesReplay.{Replayed, modes_of, replay_modes}
use bgx.Vt.Snapshot.Tracking.{IsTracking}
use bgx.Vt.Snapshot.Quiet.{IsQuiet, fixed-IsQuiet, saved_position-IsQuiet}

-- The emulator renders every screen, with nothing in it of what is followed.
pub record Renders (e : Engine) : Type 0 where
  pub rendering : e.Term → Bytes
  pub renders : (t : e.Term) → e.format t ≡ some (rendering t)
  pub quiet : (t : e.Term) → IsQuiet (rendering t)

-- Written at ground it keeps the modes, and takes the screen that is shown to `alt` of it.
record Switches (alt : Bool → Bool) (p : Bytes) : Type 0 where
  switches :
      (v : Vt blind)
      → v.scan ≡ initial
      → Replayed (record v { alt = alt v.alt }) (follow v p) v.modes

-- Written at ground to a terminal with any modes, it brings the modes `ms`.
record Ends (alt : Bool → Bool) (ms : Modes) (q : Bytes) : Type 0 where
  ends :
      (v : Vt blind) (g : ℕ → Bool)
      → v.scan ≡ initial
      → v.modes ≡ modes_of g
      → Replayed (record v { alt = alt v.alt }) (follow v q) ms

abbrev same : Bool → Bool
same b = b

append-Ends :
    {a b : Bool → Bool} {p q : Bytes} {ms : Modes}
    → Switches a p
    → Ends b ms q
    → Ends (λ x. b (a x)) ms (p ++ q)
append-Ends {a} {b} {p} {q} {ms} hp hq = record {
  ends = λ v g idle tracked.
      let first = hp.switches v idle in
      let second = hq.ends (follow v p) g first.scan (first.modes ∙ tracked) in
      subst (λ (w : Vt blind). Replayed (record v { alt = b (a v.alt) }) w ms)
        (sym (follow-append v p q))
        (record { scan = second.scan; modes = second.modes; alt = second.alt ∙ ap b first.alt });
}

quiet-Ends :
    {b : Bool → Bool} {p q : Bytes} {ms : Modes} → IsQuiet p → Ends b ms q → Ends b ms (p ++ q)
quiet-Ends {b} {p} hp hq =
    append-Ends {a = same} {b = b}
      (record {
        switches = λ v idle.
            let r = hp.replays v idle in record { scan = r.scan; modes = r.modes; alt = r.alt };
      })
      hq

sequences-Ends :
    (ms : Modes) (f : ℕ → Bool) → ms ≡ modes_of f → Ends same ms (sequences_of ms tracked_modes)
sequences-Ends ms f h = record {
  ends = λ v g idle tracked.
      let r = replay_modes v ms f g h tracked idle in
      record { scan = r.scan; modes = r.modes; alt = r.alt };
}

fixed-Switches :
    (alt : Bool → Bool) (p : Bytes)
    → ((v : Vt blind)
        → let w = follow (record v { scan = initial }) p in
          (w.scan ≡ initial) × (w.modes ≡ v.modes) × (w.alt ≡ alt v.alt))
    → Switches alt p
fixed-Switches alt p runs = record {
  switches = λ v idle.
      let start : v ≡ record v { scan = initial } =
        ap (λ (sc : Scanner). record v { scan = sc }) idle in
      let (scan, modes, alt_is) = runs v in
      subst (λ (u : Vt blind). Replayed (record v { alt = alt v.alt }) (follow u p) v.modes)
        (sym start) (record { scan = scan; modes = modes; alt = alt_is });
}

prefix-Switches : Switches (λ x. false) snapshot_prefix
unfolding note_byte track_sequence parse_mode_param step
prefix-Switches = fixed-Switches (λ x. false) snapshot_prefix (λ v. (refl, refl, refl))

enter-Switches : Switches (λ x. true) (esc (codes "[?1049h"))
unfolding note_byte track_sequence parse_mode_param step
enter-Switches = fixed-Switches (λ x. true) (esc (codes "[?1049h")) (λ v. (refl, refl, refl))

clear-IsQuiet : IsQuiet (esc (codes "[2J"))
unfolding note_byte track_sequence step
clear-IsQuiet = fixed-IsQuiet (esc (codes "[2J")) (λ v. (refl, refl, refl))

home-IsQuiet : IsQuiet (esc (codes "[H"))
unfolding note_byte track_sequence step
home-IsQuiet = fixed-IsQuiet (esc (codes "[H")) (λ v. (refl, refl, refl))

pen-IsQuiet : IsQuiet (esc (codes "[0m"))
unfolding note_byte track_sequence step
pen-IsQuiet = fixed-IsQuiet (esc (codes "[0m")) (λ v. (refl, refl, refl))

-- What `snapshot` writes for one screen, or two.
one_screen-Ends :
    {primary out : Bytes} {ms : Modes}
    → IsQuiet primary
    → Ends same ms out
    → Ends (λ x. false) ms (snapshot_prefix ++ (esc (codes "[0m") ++ (primary ++ out)))
one_screen-Ends hp hm =
    append-Ends {b = same} prefix-Switches (quiet-Ends pen-IsQuiet (quiet-Ends hp hm))

alternate-Ends :
    {alternate out : Bytes} {ms : Modes}
    → IsQuiet alternate
    → Ends same ms out
    → Ends (λ x. true) ms (alternate_part alternate out)
alternate-Ends {alternate} {out} ha hm =
    append-Ends {b = same} enter-Switches (
      quiet-Ends clear-IsQuiet
        (quiet-Ends home-IsQuiet (quiet-Ends pen-IsQuiet (quiet-Ends ha hm))))

two_screens-Ends :
    {primary alternate out : Bytes} {ms : Modes} (saved : Option (ℕ × ℕ))
    → IsQuiet primary
    → IsQuiet alternate
    → Ends same ms out
    → Ends
        (λ x. true)
        ms
        (snapshot_prefix
          ++ (esc (codes "[0m")
              ++ (primary ++ (saved_position saved ++ alternate_part alternate out))))
two_screens-Ends {alternate = alternate} {out = out} saved hp ha hm =
    append-Ends {b = λ x. true} prefix-Switches (
      quiet-Ends pen-IsQuiet (
        quiet-Ends hp (
          quiet-Ends (saved_position-IsQuiet saved)
            (alternate-Ends {alternate = alternate} {out = out} ha hm))))

module _ {e : Engine} (r : Renders e) where
  module _ (t : Vt e) (f : ℕ → Bool) (tracked : t.modes ≡ modes_of f) where
    modes_end : Ends same t.modes (mode_sequences t)
    unfolding mode_sequences
    modes_end = sequences-Ends t.modes f tracked

    snapshot-Ends : (p : Bytes) × ((snapshot t).1 ≡ some p) × Ends (λ x. t.alt) t.modes p
    unfolding snapshot mode_sequences
    snapshot-Ends = elim (Bool-cases t.alt) [
      | inl alternate ↦
          let there = bypass t to_primary in
          let back = bypass there to_alternate in
          rw (alternate, r.renders there.term, r.renders back.term)
            (
              _,
              refl,
              two_screens-Ends t.primary_saved (r.quiet there.term) (r.quiet back.term) modes_end,
            )
      | inr primary ↦
          rw (primary, r.renders t.term) (_, refl, one_screen-Ends (r.quiet t.term) modes_end)
    ]

  -- `Snapshot` succeeds, and a terminal at ground that replays it, whatever its screen and its modes
  -- are, is at ground again, on the screen that the session is on and with the session's modes.
  pub write-snapshot :
      {d : Engine} (t : Vt e) (v : Vt d)
      → IsTracking t.modes
      → IsTracking v.modes
      → v.scan ≡ initial
      → (p : Bytes) × ((snapshot t).1 ≡ some p)
        × (let w = write v p in (w.alt ≡ t.alt) × (w.modes ≡ t.modes) × (w.scan ≡ initial))
  write-snapshot t v (f, ht) (g, hv) idle =
      let (p, given, shown) = snapshot-Ends t f ht in
      let w = shown.ends (followed v) g idle hv in
      let same_as = followed-write v p in
      (
        p,
        given,
        (
          ap (λ (u : Vt blind). u.alt) same_as ∙ w.alt,
          ap (λ (u : Vt blind). u.modes) same_as ∙ w.modes,
          ap (λ (u : Vt blind). u.scan) same_as ∙ w.scan,
        ),
      )
