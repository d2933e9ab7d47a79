-- ===== src/Vt/Resume.antt =====
-- Stopping at a switch of the screen and going on behind it.
use bgx.Base.{
  ℕ, suc, ◌+◌, ◌≤◌, ◌≡◌, refl, sym, true, false, ◌&&◌, inl, inr, [], ◌∷◌, Option, none, Bytes,
  length, drop, arith, Bool-cases,
}
use bgx.Vt.{Engine, Vt, Written, write_round, flush, write_loop, write_until_screen_switch, write}
use bgx.Vt.Rounds.{
  and_false, switched-flushes, write_loop-switched, write_loop-flushes, write_loop-keeps,
}

module _ {e : Engine} where
  same_end :
      (t : Vt e) (held : Bytes) (i j : ℕ) (start start' : Option ℕ)
      → (write_loop false t held i start []).vt ≡ (write_loop false t held j start' []).vt
  unfolding write_loop
  same_end t held i j start start' = refl

  -- Where a sequence began is only reported, and the offset only counted.
  write_loop-start :
      (p : Bytes) (t : Vt e) (held : Bytes) (i j : ℕ) (start start' : Option ℕ)
      → (write_loop false t held i start p).vt ≡ (write_loop false t held j start' p).vt
  write_loop-start [] t held i j start start' = same_end t held i j start start'
  write_loop-start (b ∷ p) t held i j start start' =
      let w = write_round t held b in
      let goes = and_false w.switched in
      elim (Bool-cases w.flushes) [
        | inl does ↦
            rw
              (
                write_loop-flushes t held i start b p false goes does,
                write_loop-flushes t held j start' b p false goes does,
              )
              (write_loop-start p (flush w.vt w.held) [] (i + 1) (j + 1) _ _)
        | inr not_so ↦
            rw
              (
                write_loop-keeps t held i start b p false goes not_so,
                write_loop-keeps t held j start' b p false goes not_so,
              )
              (write_loop-start p w.vt w.held (i + 1) (j + 1) _ _)
      ]

  -- What `write_loop` leaves when it may stop, and where that is.
  record Stops (t : Vt e) (i : ℕ) (p : Bytes) (w : Written e) (whole : Vt e) : Type 0 where
    size : ℕ
    inside : size ≤ length p
    consumed_is : w.consumed ≡ i + size
    resumes : whole ≡ (write_loop false w.vt [] 0 none (drop size p)).vt

  Stops-cons :
      {t t' : Vt e} {i : ℕ} {b : ℕ} {p : Bytes} {w : Written e} {whole : Vt e}
      → Stops t (i + 1) p w whole
      → Stops t' i (b ∷ p) w whole
  Stops-cons s = record {
    size = suc s.size;
    inside = omega (arith, s.inside);
    consumed_is = omega (arith, s.consumed_is);
    resumes = s.resumes;
  }

  at_end :
      (t : Vt e) (held : Bytes) (i : ℕ) (start : Option ℕ)
      → Stops t i [] (write_loop true t held i start []) (write_loop false t held i start []).vt
  unfolding write_loop flush
  at_end t held i start = record {
    size = 0;
    inside = omega arith;
    consumed_is = omega arith;
    resumes = refl;
  }

  write_loop-Stops :
      (p : Bytes) (t : Vt e) (held : Bytes) (i : ℕ) (start : Option ℕ)
      → Stops t i p (write_loop true t held i start p) (write_loop false t held i start p).vt
  write_loop-Stops [] t held i start = at_end t held i start
  write_loop-Stops (b ∷ p) t held i start =
      let w = write_round t held b in
      let goes = and_false w.switched in
      elim (Bool-cases w.switched) [
        | inl switched ↦
            rw
              (
                write_loop-switched t held i start b p switched,
                write_loop-flushes t held i start b p false goes
                    (switched-flushes t held b switched),
              )
              (record {
                size = 1;
                inside = omega arith;
                consumed_is = refl;
                resumes = write_loop-start p (flush w.vt w.held) [] (i + 1) 0 _ none;
              })
        | inr stays ↦
            let goes_on : (w.switched && true) ≡ false = rw stays refl in
            elim (Bool-cases w.flushes) [
              | inl does ↦
                  rw
                    (
                      write_loop-flushes t held i start b p true goes_on does,
                      write_loop-flushes t held i start b p false goes does,
                    )
                    (Stops-cons (write_loop-Stops p (flush w.vt w.held) [] (i + 1) _))
              | inr not_so ↦
                  rw
                    (
                      write_loop-keeps t held i start b p true goes_on not_so,
                      write_loop-keeps t held i start b p false goes not_so,
                    )
                    (Stops-cons (write_loop-Stops p w.vt w.held (i + 1) _))
            ]
      ]

  -- `WriteUntilScreenSwitch` consumes no more than it is given, and writing what it leaves then comes
  -- to the same terminal, in each field, as writing all at once.
  pub write-write_until_screen_switch :
      (t : Vt e) (p : Bytes)
      → let w = write_until_screen_switch t p in
        (w.consumed ≤ length p) × (write w.vt (drop w.consumed p) ≡ write t p)
  unfolding write_until_screen_switch write
  write-write_until_screen_switch t p =
      let s = write_loop-Stops p t [] 0 none in
      let same : (write_loop true t [] 0 none p).consumed ≡ s.size = omega (arith, s.consumed_is) in
      rw same (s.inside, sym s.resumes)
