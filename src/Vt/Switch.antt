-- ===== src/Vt/Switch.antt =====
-- A switch of the screen is told exactly.
use bgx.Base.{
  ℕ, ◌+◌, ◌≤◌, ◌<◌, ◌≡◌, refl, ap, ◌∙◌, Bool, true, false, not, ◌&&◌, inl, inr, [], ◌∷◌, Option,
  none, Bytes, arith, Bool-cases, Option-cases, if◌then◌else◌,
}
use bgx.Vt.{
  Engine, Vt, Written, write_round, flush, flushes_before, note_byte, track_sequence,
  sequence_ended, differs, write_loop, write_until_screen_switch,
}
use bgx.Vt.Rounds.{write_loop-switched, write_loop-flushes, write_loop-keeps}

-- The screen after a switch, or after none.
abbrev pub turned : Bool → Bool → Bool
turned switched alt = if switched then not alt else alt

turned-differs : (a b : Bool) → b ≡ turned (differs a b) a
turned-differs true true = refl
turned-differs true false = refl
turned-differs false true = refl
turned-differs false false = refl

module _ {e : Engine} where
  pub alt-flush : (t : Vt e) (p : Bytes) → (flush t p).alt ≡ t.alt
  unfolding flush
  alt-flush t [] = refl
  alt-flush t (c ∷ p) = elim (Option-cases (e.cursor_y (e.vt_write t.term (c ∷ p)))) [
    | inl unknown ↦ rw (unknown, flush) refl
    | inr (row, known) ↦ rw (known, flush) refl
  ]

  alt-note_byte : (t : Vt e) (b : ℕ) → (note_byte t b).alt ≡ t.alt
  unfolding note_byte
  alt-note_byte t b = refl

  alt-before :
      (t : Vt e) (held : Bytes) (b : ℕ)
      → (if flushes_before t b then flush t held else t).alt ≡ t.alt
  alt-before t held b = elim (Bool-cases (flushes_before t b)) [
    | inl flushes ↦ rw flushes (alt-flush t held)
    | inr holds ↦ rw holds refl
  ]

  alt-round :
      (t t2 : Vt e) (seq : Bytes) (ended : Bool)
      → t2.alt ≡ t.alt
      → let t3 = if ended then track_sequence t2 seq else t2 in
        t3.alt ≡ turned (ended && differs t2.alt t3.alt) t.alt
  alt-round t t2 seq true same = rw⁻¹ same (turned-differs t2.alt (track_sequence t2 seq).alt)
  alt-round t t2 seq false same = same

  pub alt-write_round :
      (t : Vt e) (held : Bytes) (b : ℕ)
      → let r = write_round t held b in r.vt.alt ≡ turned r.switched t.alt
  unfolding write_round
  alt-write_round t held b =
      let t1 = if flushes_before t b then flush t held else t in
      let t2 = note_byte t1 b in
      alt-round t t2 t2.seq (sequence_ended t t2) (alt-note_byte t1 b ∙ alt-before t held b)

  -- What the loop gives that may stop, from the offset `i`.
  record Told (t : Vt e) (i : ℕ) (w : Written e) : Type 0 where
    reached : i ≤ w.consumed
    screen : w.vt.alt ≡ turned w.switched t.alt

  end-Told :
      (t : Vt e) (held : Bytes) (i : ℕ) (start : Option ℕ)
      → Told t i (write_loop true t held i start [])
  unfolding write_loop
  end-Told t held i start = record { reached = omega arith; screen = alt-flush t held }

  stopped-Told :
      {t u : Vt e} {i before : ℕ}
      → u.alt ≡ not t.alt
      → Told t i (record { vt = u; before = before; consumed = i + 1; switched = true })
  stopped-Told h = record { reached = omega arith; screen = h }

  on-Told : {t u : Vt e} {i : ℕ} {w : Written e} → u.alt ≡ t.alt → Told u (i + 1) w → Told t i w
  on-Told {t} {u} {i} {w} same h = record {
    reached = omega (arith, h.reached);
    screen = h.screen ∙ ap (turned w.switched) same;
  }

  write_loop-Told :
      (p : Bytes) (t : Vt e) (held : Bytes) (i : ℕ) (start : Option ℕ)
      → Told t i (write_loop true t held i start p)
  write_loop-Told [] t held i start = end-Told t held i start
  write_loop-Told (b ∷ p) t held i start =
      let r = write_round t held b in
      let round = alt-write_round t held b in
      elim (Bool-cases r.switched) [
        | inl switched ↦
            rw (write_loop-switched t held i start b p switched)
              (stopped-Told (alt-flush r.vt r.held ∙ round ∙ ap (λ x. turned x t.alt) switched))
        | inr stays ↦
            let goes_on : (r.switched && true) ≡ false = rw stays refl in
            let same : r.vt.alt ≡ t.alt = round ∙ ap (λ x. turned x t.alt) stays in
            elim (Bool-cases r.flushes) [
              | inl does ↦ rw (write_loop-flushes t held i start b p true goes_on does) (
                  on-Told (alt-flush r.vt r.held ∙ same)
                    (write_loop-Told p (flush r.vt r.held) [] (i + 1) _))
              | inr not_so ↦
                  rw (write_loop-keeps t held i start b p true goes_on not_so)
                    (on-Told same (write_loop-Told p r.vt r.held (i + 1) _))
            ]
      ]

  past_first :
      (p : Bytes) (t : Vt e) (held : Bytes) (i : ℕ) (start : Option ℕ) (b : ℕ)
      → i + 1 ≤ (write_loop true t held i start (b ∷ p)).consumed
  past_first p t held i start b =
      let r = write_round t held b in
      elim (Bool-cases r.switched) [
        | inl switched ↦ rw (write_loop-switched t held i start b p switched) (omega arith)
        | inr stays ↦
            let goes_on : (r.switched && true) ≡ false = rw stays refl in
            elim (Bool-cases r.flushes) [
              | inl does ↦
                  rw (write_loop-flushes t held i start b p true goes_on does)
                    (write_loop-Told p (flush r.vt r.held) [] (i + 1) _).reached
              | inr not_so ↦
                  rw (write_loop-keeps t held i start b p true goes_on not_so)
                    (write_loop-Told p r.vt r.held (i + 1) _).reached
            ]
      ]

  -- `WriteUntilScreenSwitch` reads a byte at least of output that is not empty, and tells of a switch
  -- exactly if the active screen is another behind what it has read.
  pub write_until_screen_switch-alt :
      (t : Vt e) (b : ℕ) (p : Bytes)
      → let w = write_until_screen_switch t (b ∷ p) in
        (0 < w.consumed) × (w.vt.alt ≡ turned w.switched t.alt)
  unfolding write_until_screen_switch
  write_until_screen_switch-alt t b p =
      let told = write_loop-Told (b ∷ p) t [] 0 none in (past_first p t [] 0 none b, told.screen)
