-- ===== src/Vt/Tracked.antt =====
-- The screen and the modes that are followed do not depend on how the output is cut into writes.
use bgx.Base.{
  ℕ, ◌+◌, ◌-◌, ◌≡◌, refl, sym, ap, ◌∙◌, Bool, true, false, not, ◌&&◌, ◌||◌, inl, inr, List, [], ◌∷◌,
  ◌++◌, Option, none, some, Bytes, ltb, ◌==◌, if◌then◌else◌, length, take, Bool-cases, Option-cases,
}
use bgx.Vt.Rounds.{and_false, write_loop-flushes, write_loop-keeps}
use bgx.Vt.{
  Engine, Vt, write_round, flush, flushes_before, note_byte, sequence_ended, track_sequence,
  track_private, is_ris, apply_mode, apply_params, parse_mode_param, final_byte, split_from,
  write_loop, write,
}

-- An emulator of which nothing is seen.
abbrev pub blind : Engine
blind = record {
  Term = Unit;
  vt_write = λ t p. tt;
  cursor_x = λ t. none;
  cursor_y = λ t. none;
  set_size = λ t cols rows. some tt;
  format = λ t. none;
}

abbrev no_position : Option (ℕ × ℕ)
no_position = none

no_cursor :
    (on alt : Bool)
    → no_position ≡ (if on then (if alt then no_position else no_position) else no_position)
no_cursor true true = refl
no_cursor true false = refl
no_cursor false alt = refl

-- A byte, and what is written, as it is followed.
abbrev pub follow_byte : Vt blind → ℕ → Vt blind
follow_byte v b =
    let v' = note_byte v b in if sequence_ended v v' then track_sequence v' v'.seq else v'

abbrev pub follow : Vt blind → Bytes → Vt blind
follow v [] = v
follow v (b ∷ p) = follow (follow_byte v b) p

pub follow-append : (v : Vt blind) (p q : Bytes) → follow v (p ++ q) ≡ follow (follow v p) q
follow-append v [] q = refl
follow-append v (b ∷ p) q = follow-append (follow_byte v b) p q

module _ {e : Engine} where
  -- What is followed without the emulator: the scanner, the sequence, the screen and the modes.
  abbrev pub followed : Vt e → Vt blind
  followed t = record {
    term = tt;
    scan = t.scan;
    written_rows = 0;
    seq = t.seq;
    alt = t.alt;
    modes = t.modes;
    primary_saved = none;
  }

  followed-flush : (t : Vt e) (p : Bytes) → followed (flush t p) ≡ followed t
  unfolding flush
  followed-flush t [] = refl
  followed-flush t (c ∷ p) = elim (Option-cases (e.cursor_y (e.vt_write t.term (c ∷ p)))) [
    | inl unknown ↦ rw (unknown, flush) refl
    | inr (row, known) ↦ rw (known, flush) refl
  ]

  followed-note_byte : (t : Vt e) (b : ℕ) → followed (note_byte t b) ≡ note_byte (followed t) b
  unfolding note_byte
  followed-note_byte t b = refl

  followed-apply_mode :
      (t : Vt e) (on : Bool) (n : Option ℕ)
      → followed (apply_mode t on n) ≡ apply_mode (followed t) on n
  followed-apply_mode t on none = refl
  followed-apply_mode t on (some n) = elim (Bool-cases (n == 1049)) [
    | inl saves ↦ rw saves (
        ap (λ (c : Option (ℕ × ℕ)). record (followed t) { alt = on; primary_saved = c })
          (no_cursor on t.alt))
    | inr other ↦ elim (Bool-cases (n == 47 || n == 1047)) [
      | inl switches ↦ rw (other, switches) refl
      | inr mode ↦ rw (other, mode) refl
    ]
  ]

  followed-apply_params :
      (t : Vt e) (on : Bool) (ps : List Bytes)
      → followed (apply_params t on ps) ≡ apply_params (followed t) on ps
  followed-apply_params t on [] = refl
  followed-apply_params t on (p ∷ ps) =
      followed-apply_params (apply_mode t on (parse_mode_param p)) on ps
      ∙ ap (λ (v : Vt blind). apply_params v on ps) (followed-apply_mode t on (parse_mode_param p))

  followed-track_private :
      (t : Vt e) (seq : Bytes) → followed (track_private t seq) ≡ track_private (followed t) seq
  followed-track_private t [] = refl
  followed-track_private t (c ∷ []) = refl
  followed-track_private t (c ∷ d ∷ []) = refl
  followed-track_private t (c ∷ d ∷ q ∷ rest) =
      elim (Bool-cases
        (ltb (length rest) 2 || not (c == 0x1b) || not (d == b'[') || not (q == b'?'))) [
          | inl other ↦ rw other refl
          | inr private ↦
              elim (Bool-cases (not (final_byte rest == b'h') && not (final_byte rest == b'l'))) [
                | inl other ↦ rw (private, other) refl
                | inr sets ↦
                    rw (private, sets)
                      (followed-apply_params t (final_byte rest == b'h')
                        (split_from [] (take (length rest - 1) rest)))
              ]
        ]

  followed-track_sequence :
      (t : Vt e) (seq : Bytes) → followed (track_sequence t seq) ≡ track_sequence (followed t) seq
  unfolding track_sequence
  followed-track_sequence t seq = elim (Bool-cases (is_ris seq)) [
    | inl ris ↦ rw ris refl
    | inr other ↦ rw other (followed-track_private t seq)
  ]

  followed-flush_before :
      (t : Vt e) (held : Bytes) (b : ℕ)
      → followed (if flushes_before t b then flush t held else t) ≡ followed t
  followed-flush_before t held b = elim (Bool-cases (flushes_before t b)) [
    | inl flushes ↦ rw flushes (followed-flush t held)
    | inr holds ↦ rw holds refl
  ]

  -- With the flush before the byte set apart.
  followed-noted :
      (t t1 : Vt e) (b : ℕ)
      → followed t1 ≡ followed t
      → followed
          (let t2 = note_byte t1 b in if sequence_ended t t2 then track_sequence t2 t2.seq else t2)
        ≡ follow_byte (followed t) b
  followed-noted t t1 b same =
      let noted : followed (note_byte t1 b) ≡ note_byte (followed t) b =
        followed-note_byte t1 b ∙ ap (λ (v : Vt blind). note_byte v b) same in
      let seq_is : (note_byte t1 b).seq ≡ (note_byte (followed t) b).seq =
        ap (λ (v : Vt blind). v.seq) noted in
      let ends : sequence_ended t (note_byte t1 b)
          ≡ sequence_ended (followed t) (note_byte (followed t) b) =
        ap (λ (v : Vt blind). sequence_ended (followed t) v) noted in
      elim (Bool-cases (sequence_ended t (note_byte t1 b))) [
        | inl ended ↦
            rw (ended, sym ends ∙ ended)
              (followed-track_sequence (note_byte t1 b) (note_byte t1 b).seq
                ∙ ap (track_sequence (followed (note_byte t1 b))) seq_is
                ∙ ap (λ (v : Vt blind). track_sequence v (note_byte (followed t) b).seq) noted)
        | inr inside ↦ rw (inside, sym ends ∙ inside) noted
      ]

  followed-write_round :
      (t : Vt e) (held : Bytes) (b : ℕ)
      → followed (write_round t held b).vt ≡ follow_byte (followed t) b
  unfolding write_round
  followed-write_round t held b =
      followed-noted t (if flushes_before t b then flush t held else t) b
        (followed-flush_before t held b)

  at_end :
      (t : Vt e) (held : Bytes) (i : ℕ) (start : Option ℕ)
      → followed (write_loop false t held i start []).vt ≡ followed t
  unfolding write_loop
  at_end t held i start = followed-flush t held

  followed-write_loop :
      (p : Bytes) (t : Vt e) (held : Bytes) (i : ℕ) (start : Option ℕ)
      → followed (write_loop false t held i start p).vt ≡ follow (followed t) p
  followed-write_loop [] t held i start = at_end t held i start
  followed-write_loop (b ∷ p) t held i start =
      let r = write_round t held b in
      let on : follow (followed r.vt) p ≡ follow (followed t) (b ∷ p) =
        ap (λ (v : Vt blind). follow v p) (followed-write_round t held b) in
      elim (Bool-cases r.flushes) [
        | inl flushes ↦
            rw (write_loop-flushes t held i start b p false (and_false r.switched) flushes) (
              followed-write_loop p (flush r.vt r.held) [] (i + 1) _
              ∙ ap (λ (v : Vt blind). follow v p) (followed-flush r.vt r.held)
              ∙ on)
        | inr keeps ↦
            rw (write_loop-keeps t held i start b p false (and_false r.switched) keeps)
              (followed-write_loop p r.vt r.held (i + 1) _ ∙ on)
      ]

  pub followed-write : (t : Vt e) (p : Bytes) → followed (write t p) ≡ follow (followed t) p
  unfolding write
  followed-write t p = followed-write_loop p t [] 0 none

  -- However output is cut in two writes, the scanner, the sequence in progress, the active screen and
  -- the tracked modes are those of one write: a mode change that a cut splits is not missed.
  pub write-write :
      (t : Vt e) (p q : Bytes) → followed (write (write t p) q) ≡ followed (write t (p ++ q))
  write-write t p q =
      followed-write (write t p) q
      ∙ ap (λ (v : Vt blind). follow v q) (followed-write t p)
      ∙ sym (follow-append (followed t) p q)
      ∙ sym (followed-write t (p ++ q))
