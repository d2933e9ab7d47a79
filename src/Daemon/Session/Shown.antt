-- ===== src/Daemon/Session/Shown.antt =====
-- The output pump before the end: what is shown and fanned out, and what waits for the rest of a
-- sequence.
use bgx.Base.Int.{pos}
use bgx.Base.{
  ℕ, ◌+◌, ◌≤◌, ◌<◌, ◌≡◌, refl, sym, ap, ◌∙◌, false, ◌||◌, inl, inr, List, [], ◌∷◌, ◌++◌, some,
  Bytes, All, All-append, flatten, flatten-append, ltb, ◌==◌, length, take, drop, take-append-drop,
  take-append_add, drop-append_add, length-append, length-take, arith, Bool-cases, Option-cases,
  append-nil, append_assoc,
}
use bgx.Vtscan.Cut.{IsCut, IsCut-zero, LargestCut, safe_cut-LargestCut}
use bgx.Vtscan.Valid.{advance-append, at_ground-initial}
use bgx.Vtscan.{Scanner, initial, advance, safe_cut}
use bgx.Daemon.Terminal.{Emulator, Replays}
use bgx.Scrollback.Store.{Store}
use bgx.Daemon.Session.{
  pump_read, queue_input, no_clients, pty_input_cap, Session, fanout, feed_cut, feed_term,
}

abbrev pub IsGrounded : Bytes → Type 0
IsGrounded p = advance initial p ≡ initial

-- A cut of what follows a stretch from ground to ground is a cut of the whole.
IsCut-append :
    (p q : Bytes) (m : ℕ)
    → IsGrounded p
    → 0 < m
    → IsCut initial q m
    → IsCut initial (p ++ q) (length p + m)
IsCut-append p q m g lt c = record {
  inside = omega (arith, c.inside, length-append p q);
  grounded = rw (take-append_add p q m, advance-append initial p (take m q), g) c.grounded;
  whole_rune = λ _. rw drop-append_add (c.whole_rune lt);
}

-- Behind the largest cut there is none.
rest_held :
    (buf : Bytes) (n : ℕ)
    → IsCut initial buf n
    → ((m : ℕ) → n < m → m ≤ length buf → ¬ IsCut initial buf m)
    → (m : ℕ) → 0 < m
    → ¬ IsCut initial (drop n buf) m
rest_held buf n cut largest m lt c =
    let size : length (take n buf) ≡ n = omega (arith, length-take n buf, cut.inside) in
    let whole = IsCut-append (take n buf) (drop n buf) m (at_ground-initial _ cut.grounded) lt c in
    let there : IsCut initial buf (n + m) = rw (take-append-drop n buf, size) at whole in
    largest (n + m) (omega arith) there.inside there

split_at :
    (shown waits p : Bytes) (n : ℕ)
    → (shown ++ waits) ++ p ≡ (shown ++ take n (waits ++ p)) ++ drop n (waits ++ p)
split_at shown waits p n =
    append_assoc shown waits p
    ∙ ap (◌++◌ shown) (sym (take-append-drop n (waits ++ p)))
    ∙ sym (append_assoc shown (take n (waits ++ p)) (drop n (waits ++ p)))

module _ (e : Emulator) (r : Replays e) where
  abbrev pub draw_all : e.Screen → List Bytes → e.Screen
  draw_all t [] = t
  draw_all t (p ∷ ps) = draw_all (r.draw t p) ps

  pub draw_all-append :
      (t : e.Screen) (ps : List Bytes) (p : Bytes)
      → draw_all t (ps ++ p ∷ []) ≡ r.draw (draw_all t ps) p
  draw_all-append t [] p = refl
  draw_all-append t (q ∷ ps) p = draw_all-append (r.draw t q) ps p

  -- `out` is the output read so far, `first` the screen at the start. The pieces shown are from
  -- ground to ground, and what waits has no cut.
  pub record Shown (first : e.Screen) (out : Bytes) (s : Session e) : Type 0 where
    pub pieces : List Bytes
    pub tiles : out ≡ flatten pieces ++ s.out_pending
    pub screen_is : s.screen ≡ draw_all first pieces
    pub scanned : s.out_scan ≡ initial
    pub grounded : All IsGrounded pieces
    pub nothing_held : (m : ℕ) → 0 < m → ¬ IsCut initial s.out_pending m

  -- The steps that neither read nor show output keep it.
  Shown-same :
      (first : e.Screen) (out : Bytes) (s s' : Session e)
      → s'.screen ≡ s.screen
      → s'.out_scan ≡ s.out_scan
      → s'.out_pending ≡ s.out_pending
      → Shown first out s
      → Shown first out s'
  Shown-same first out s s' screen scan pending h = record {
    pieces = h.pieces;
    tiles = rw pending h.tiles;
    screen_is = screen ∙ h.screen_is;
    scanned = scan ∙ h.scanned;
    grounded = h.grounded;
    nothing_held = rw pending h.nothing_held;
  }

  nothing_new :
      (first : e.Screen) (out : Bytes) (s : Session e) (p : Bytes)
      → Shown first out s
      → ((m : ℕ) → 0 < m → ¬ IsCut initial (s.out_pending ++ p) m)
      → Shown first (out ++ p) (record s { out_pending = s.out_pending ++ p })
  nothing_new first out s p h none_later = record {
    pieces = h.pieces;
    tiles = ap (λ (t : Bytes). t ++ p) h.tiles ∙ append_assoc (flatten h.pieces) s.out_pending p;
    screen_is = h.screen_is;
    scanned = h.scanned;
    grounded = h.grounded;
    nothing_held = none_later;
  }

  -- The largest cut of what waits is shown.
  cut-Shown :
      (first : e.Screen) (out : Bytes) (s : Session e) (p : Bytes) (n : ℕ)
      → Shown first out s
      → LargestCut initial (s.out_pending ++ p) (length (s.out_pending ++ p)) (some n)
      → Shown first (out ++ p) (feed_cut (record s { out_pending = s.out_pending ++ p }) (some n)).0
  unfolding fanout
  cut-Shown first out s p n h (le, cut, largest) = elim (Bool-cases (n == 0)) [
    | inl nothing ↦
        rw nothing (nothing_new first out s p h (λ m lt c. largest m (ground arith) c.inside c))
    | inr some_bytes ↦
        rw (some_bytes, r.draws s.screen (take n (s.out_pending ++ p)))
          record {
            pieces = h.pieces ++ take n (s.out_pending ++ p) ∷ [];
            tiles =
                ap (λ (t : Bytes). t ++ p) h.tiles
                ∙ split_at (flatten h.pieces) s.out_pending p n
                ∙ ap (λ (t : Bytes). t ++ drop n (s.out_pending ++ p))
                    (sym (flatten-append h.pieces (take n (s.out_pending ++ p))));
            screen_is =
                ap (λ (t : e.Screen). r.draw t (take n (s.out_pending ++ p))) h.screen_is
                ∙ sym (draw_all-append first h.pieces _);
            scanned =
                ap (λ (sc : Scanner). advance sc (take n (s.out_pending ++ p))) h.scanned
                ∙ at_ground-initial _ cut.grounded;
            grounded =
                All-append IsGrounded h.pieces _ h.grounded (at_ground-initial _ cut.grounded, tt);
            nothing_held = rest_held (s.out_pending ++ p) n cut largest;
          }
  ]

  feed_term-Shown :
      (first : e.Screen) (out : Bytes) (s : Session e) (p : Bytes)
      → Shown first out s
      → Shown first (out ++ p) (feed_term s p false).0
  unfolding feed_term
  feed_term-Shown first out s p h =
      let buf = s.out_pending ++ p in
      elim (Option-cases (safe_cut s.out_scan buf (pos (length buf)))) [
        | inl nowhere ↦ absurd (
            (rw (nowhere, h.scanned) at (safe_cut-LargestCut s.out_scan buf (length buf))) 0
              (omega arith) (IsCut-zero initial buf refl))
        | inr (n, found) ↦
            let spec = rw (found, h.scanned) at (safe_cut-LargestCut s.out_scan buf (length buf)) in
            rw found (cut-Shown first out s p n h spec)
      ]

  queue_input-Shown :
      (first : e.Screen) (out : Bytes) (s : Session e) (p : Bytes)
      → Shown first out s
      → Shown first out (queue_input s p)
  unfolding queue_input
  queue_input-Shown first out s [] h = h
  queue_input-Shown first out s (c ∷ p) h = elim (Bool-cases (s.ended || s.closing)) [
    | inl over ↦ rw over h
    | inr live ↦ elim (Bool-cases (ltb pty_input_cap (length s.input_buf + length (c ∷ p)))) [
      | inl full ↦ rw (live, full) h
      | inr fits ↦ rw (live, fits) (Shown-same first out s _ refl refl refl h)
    ]
  ]

  pub pump_read-Shown :
      {H : Type 0} (store : Store H) (first : e.Screen) (out : Bytes) (s : Session e) (p : Bytes)
      → Shown first out s
      → Shown first (out ++ p) (pump_read store s p).1
  unfolding pump_read
  pump_read-Shown store first out s [] h = rw append-nil h
  pump_read-Shown store first out s (c ∷ p) h =
      let s' = (feed_term s (c ∷ p) false).0 in
      let fed = feed_term-Shown first out s (c ∷ p) h in
      elim (Bool-cases (no_clients s')) [
        | inl alone ↦ rw alone (
            queue_input-Shown first (out ++ c ∷ p) _ _
              (Shown-same first (out ++ c ∷ p) s' _ refl refl refl fed))
        | inr attached ↦ rw attached (Shown-same first (out ++ c ∷ p) s' _ refl refl refl fed)
      ]
