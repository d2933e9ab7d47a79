-- ===== src/Daemon/Session/Output.antt =====
-- The output pump up to its end: all of the output is shown and stored.
use bgx.Base.{
  ◌≡◌, refl, sym, ap, ◌∙◌, Bool, true, inl, inr, List, [], ◌∷◌, ◌++◌, Bytes, flatten,
  flatten-append, ◌==◌, length, take, take-length, drop-length, arith, Bool-cases, append-nil,
  append_assoc,
}
use bgx.Vtscan.{initial}
use bgx.Daemon.Terminal.{Emulator, Replays}
use bgx.Scrollback.Store.{Store, write}
use bgx.Daemon.Session.{pump_read, pump_output, Session, fanout, feed_term}
use bgx.Daemon.Session.Shown.{Shown, draw_all, draw_all-append, pump_read-Shown}

abbrev pub write_all : {H : Type 0} → Store H → List Bytes → Store H
write_all store [] = store
write_all store (p ∷ ps) = write_all (write store p).0 ps

length-nil : (p : Bytes) → length p ≡ 0 → p ≡ []
length-nil [] h = refl
length-nil (c ∷ p) h = absurd (omega arith)

module _ (e : Emulator) (r : Replays e) where
  -- At the end nothing waits.
  pub record Finished (first : e.Screen) (out : Bytes) (s : Session e) : Type 0 where
    pub pieces : List Bytes
    pub tiles : out ≡ flatten pieces
    pub screen_is : s.screen ≡ draw_all e r first pieces
    pub nothing_waits : s.out_pending ≡ []

  flush-Finished :
      (first : e.Screen) (out : Bytes) (s : Session e)
      → Shown e r first out s
      → Finished first out (feed_term s [] true).0
  unfolding feed_term fanout
  flush-Finished first out s h =
      let buf = s.out_pending ++ [] in
      let same : buf ≡ s.out_pending = append-nil s.out_pending in
      elim (Bool-cases (length buf == 0)) [
        | inl nothing ↦
            let empty : buf ≡ [] = length-nil buf (ground (arith, nothing)) in
            rw nothing (record {
              pieces = h.pieces;
              tiles =
                  h.tiles
                  ∙ ap (λ (t : Bytes). flatten h.pieces ++ t) (sym same ∙ empty)
                  ∙ append-nil (flatten h.pieces);
              screen_is = h.screen_is;
              nothing_waits = empty;
            })
        | inr some_bytes ↦
            rw (some_bytes, r.draws s.screen (take (length buf) buf))
              (record {
                pieces = h.pieces ++ buf ∷ [];
                tiles =
                    h.tiles
                    ∙ ap (λ (t : Bytes). flatten h.pieces ++ t) (sym same)
                    ∙ sym (flatten-append h.pieces buf);
                screen_is =
                    ap (λ (t : e.Screen). r.draw t (take (length buf) buf)) h.screen_is
                    ∙ ap (λ (t : Bytes). r.draw (draw_all e r first h.pieces) t) (take-length buf)
                    ∙ sym (draw_all-append e r first h.pieces buf);
                nothing_waits = drop-length buf;
              })
      ]

  pump_output-Finished :
      {H : Type 0} (store : Store H) (first : e.Screen) (out : Bytes) (s : Session e)
      (reads : List Bytes) (failed : Bool)
      → Shown e r first out s
      → Finished first (out ++ flatten reads) (pump_output store s reads failed).1
  unfolding pump_output
  pump_output-Finished store first out s [] failed h =
      let f = flush-Finished first out s h in
      rw append-nil (record {
        pieces = f.pieces;
        tiles = f.tiles;
        screen_is = f.screen_is;
        nothing_waits = f.nothing_waits;
      })
  pump_output-Finished store first out s (p ∷ reads) failed h =
      let (store', s') = pump_read store s p in
      rw⁻¹ (append_assoc out p (flatten reads)) (
        pump_output-Finished store' first (out ++ p) s' reads failed
          (pump_read-Shown e r store first out s p h))

  pump_output-write_all :
      {H : Type 0} (store : Store H) (s : Session e) (reads : List Bytes) (failed : Bool)
      → (pump_output store s reads failed).0 ≡ write_all store reads
  unfolding pump_output pump_read write
  pump_output-write_all store s [] failed = refl
  pump_output-write_all store s ([] ∷ reads) failed = pump_output-write_all store s reads failed
  pump_output-write_all store s ((c ∷ p) ∷ reads) failed =
      pump_output-write_all (pump_read store s (c ∷ p)).0 (pump_read store s (c ∷ p)).1 reads failed

  nothing-Shown :
      (s : Session e) → s.out_scan ≡ initial → s.out_pending ≡ [] → Shown e r s.screen [] s
  nothing-Shown s scan waits = record {
    pieces = [];
    tiles = sym waits;
    screen_is = refl;
    scanned = scan;
    grounded = tt;
    nothing_held = λ m lt c. omega (arith, lt, c.inside, ap (λ (t : Bytes). length t) waits);
  }

  -- However the output of the command is cut into reads, once it has ended a session that began with
  -- nothing waiting has shown all of it, in order, and has given all of it to the store, if the
  -- emulator fails in nothing.
  pub pump_output_lem :
      {H : Type 0} (store : Store H) (s : Session e) (reads : List Bytes) (failed : Bool)
      → s.out_scan ≡ initial
      → s.out_pending ≡ []
      → let after = pump_output store s reads failed in
        Finished s.screen (flatten reads) after.1 × (after.0 ≡ write_all store reads)
  pump_output_lem store s reads failed scan waits = (
    pump_output-Finished store s.screen [] s reads failed (nothing-Shown s scan waits),
    pump_output-write_all store s reads failed,
  )
