-- ===== src/Vt/Rounds.antt =====
-- The rounds of the loop of `write`.
use bgx.Base.{
  ℕ, ◌+◌, ◌≡◌, refl, Bool, true, false, ◌&&◌, inl, inr, [], ◌∷◌, Option, Bytes, if◌then◌else◌,
  Bool-cases,
}
use bgx.Vt.{
  sequence_ended, note_byte, flushes_before, Engine, Vt, Round, write_round, flush, write_loop,
  start_at, offset_or_zero,
}

pub and_false : (x : Bool) → (x && false) ≡ false
and_false true = refl
and_false false = refl

module _ {e : Engine} where
  -- A sequence that switches the screen has ended, so what is held is flushed.
  pub switched-flushes :
      (t : Vt e) (held : Bytes) (b : ℕ)
      → (write_round t held b).switched ≡ true
      → (write_round t held b).flushes ≡ true
  unfolding write_round
  switched-flushes t held b h =
      elim (Bool-cases
        (sequence_ended t (note_byte (if flushes_before t b then flush t held else t) b))) [
          | inl ended ↦ rw ended refl
          | inr inside ↦ cc (rw inside at h)
        ]

  -- The three ways on from a byte.
  module _ (t : Vt e) (held : Bytes) (i : ℕ) (start : Option ℕ) (b : ℕ) (p : Bytes) where
    abbrev pub r : Round e
    r = write_round t held b

    pub write_loop-switched :
        r.switched ≡ true
        → write_loop true t held i start (b ∷ p) ≡ record {
          vt = flush r.vt r.held;
          before = offset_or_zero (start_at t b i start);
          consumed = i + 1;
          switched = true;
        }
    unfolding write_loop
    write_loop-switched h = rw h refl

    pub write_loop-flushes :
        (stop : Bool)
        → (r.switched && stop) ≡ false
        → r.flushes ≡ true
        → write_loop stop t held i start (b ∷ p)
          ≡ write_loop stop (flush r.vt r.held) [] (i + 1) (start_at t b i start) p
    unfolding write_loop
    write_loop-flushes stop no_stop h = rw (no_stop, h) refl

    pub write_loop-keeps :
        (stop : Bool)
        → (r.switched && stop) ≡ false
        → r.flushes ≡ false
        → write_loop stop t held i start (b ∷ p)
          ≡ write_loop stop r.vt r.held (i + 1) (start_at t b i start) p
    unfolding write_loop
    write_loop-keeps stop no_stop h = rw (no_stop, h) refl
