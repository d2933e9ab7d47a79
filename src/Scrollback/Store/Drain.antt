-- ===== src/Scrollback/Store/Drain.antt =====
-- The loop of `process` comes to its end, and a drain leaves nothing pending.
use bgx.Base.Int.{ℤ}
use bgx.Base.{
  ℕ, zero, suc, ◌<◌, ◌≡◌, refl, ap, ◌∙◌, Bool, false, inl, inr, [], none, some, Bytes, ltb, ◌==◌,
  length, length-append, arith, Bool-cases, Option-cases,
}
use bgx.Scrollback.Backend.{Backend, Zstd, Faithful}
use bgx.Scrollback.Boundary.{boundary_cut}
use bgx.Scrollback.Store.{
  Store, take_pending, evict, keep_chunk, process_round, process, drain, cut_target,
}
use bgx.Scrollback.Store.Round.{process_round-Cut}
use bgx.Scrollback.Store.Runs.{Runs, moved, rested, round}

module _ (b : Backend) (z : Zstd) where
  keep_chunk-chunk_buf :
      (s : Store b.Handle) (cut : ℕ) (compressed : Bool) (h : b.Handle)
      → (keep_chunk b z s cut compressed h).chunk_buf ≡ s.chunk_buf
  unfolding keep_chunk evict
  keep_chunk-chunk_buf s cut compressed h = elim (Bool-cases (ltb s.head_bytes s.head_size)) [
    | inl filling ↦ rw filling refl
    | inr full ↦ rw full refl
  ]

  keep_chunk-pending :
      (s : Store b.Handle) (cut : ℕ) (compressed : Bool) (h : b.Handle)
      → (keep_chunk b z s cut compressed h).pending ≡ s.pending
  unfolding keep_chunk evict
  keep_chunk-pending s cut compressed h = elim (Bool-cases (ltb s.head_bytes s.head_size)) [
    | inl filling ↦ rw filling refl
    | inr full ↦ rw full refl
  ]

  pub process-stop :
      (fuel : ℕ) (s : Store b.Handle) → process_round b z s ≡ none → process b z (suc fuel) s ≡ s
  unfolding process
  process-stop fuel s e = rw (e, process) refl

  process-go :
      (fuel : ℕ) (s : Store b.Handle) {s' : Store b.Handle}
      → process_round b z s ≡ some s'
      → process b z (suc fuel) s ≡ process b z fuel s'
  unfolding process
  process-go fuel s e = rw (e, process) refl

  -- A round does not look at `busy`.
  rested_stops :
      (s : Store b.Handle)
      → process_round b z s ≡ none
      → process_round b z (record s { busy = false }) ≡ none
  unfolding process_round
  rested_stops s e = elim (Bool-cases (ltb (length s.chunk_buf) (cut_target s))) [
    | inl short ↦ rw short refl
    | inr long ↦ elim (Option-cases (boundary_cut s.chunk_buf (cut_target s))) [
      | inl nowhere ↦ rw (long, nowhere) refl
      | inr (cut, found) ↦ elim (Bool-cases (cut == 0)) [
        | inl nothing ↦ rw (long, found, nothing) refl
        | inr some_bytes ↦ cc (rw (long, found, some_bytes) at e)
      ]
    ]
  ]

  module _ (f : Faithful b z) where
    round_shrinks :
        (s : Store b.Handle) {s' : Store b.Handle}
        → process_round b z s ≡ some s'
        → (length s'.chunk_buf < length s.chunk_buf) × (s'.pending ≡ s.pending)
    round_shrinks s e =
        let c = process_round-Cut b z f s e in
        let s0 = record s { chunk_buf = c.rest } in
        rw c.kept (
          omega (
            arith,
            c.nonempty,
            ap (λ (t : Bytes). length t) c.splits,
            length-append c.raw c.rest,
            ap (λ (t : Bytes). length t)
                (keep_chunk-chunk_buf s0 (length c.raw) c.compressed c.handle),
          ),
          keep_chunk-pending s0 (length c.raw) c.compressed c.handle,
        )

    -- With more fuel than the buffer has bytes, the rounds go on until the code returns.
    pub process_ends :
        (fuel : ℕ) (s : Store b.Handle)
        → length s.chunk_buf < fuel
        → process_round b z (process b z fuel s) ≡ none
    process_ends zero s lt = absurd (omega arith)
    process_ends (suc fuel) s lt = elim (Option-cases (process_round b z s)) [
      | inl done ↦ rw (process-stop fuel s done) done
      | inr (s', e) ↦
          rw (process-go fuel s e) (process_ends fuel s' (omega (arith, (round_shrinks s e).0)))
    ]

    process-pending : (fuel : ℕ) (s : Store b.Handle) → (process b z fuel s).pending ≡ s.pending
    unfolding process
    process-pending zero s = refl
    process-pending (suc fuel) s = elim (Option-cases (process_round b z s)) [
      | inl done ↦ ap (λ (t : Store b.Handle). t.pending) (process-stop fuel s done)
      | inr (s', e) ↦ rw (process-go fuel s e) (process-pending fuel s' ∙ (round_shrinks s e).1)
    ]

    process-Runs :
        {head tail chunk fallback : ℤ} {w : Bytes} (fuel : ℕ) (s : Store b.Handle)
        → Runs b z head tail chunk fallback w s
        → Runs b z head tail chunk fallback w (process b z fuel s)
    unfolding process
    process-Runs zero s r = r
    process-Runs (suc fuel) s r = elim (Option-cases (process_round b z s)) [
      | inl done ↦ rw (process-stop fuel s done) r
      | inr (s', e) ↦ rw (process-go fuel s e) (process-Runs fuel s' (round r e))
    ]

    -- `drain`, once, is a run: afterwards nothing is pending and no further round goes on.
    pub drain-Runs :
        {head tail chunk fallback : ℤ} {w : Bytes} (s : Store b.Handle)
        → Runs b z head tail chunk fallback w s
        → let s' = drain b z s in
          Runs b z head tail chunk fallback w s'
          × (s'.pending ≡ [])
          × (process_round b z s' ≡ none)
          × (s'.busy ≡ false)
    unfolding drain take_pending
    drain-Runs s r =
        let s' = take_pending s in
        let fuel = suc (length s'.chunk_buf) in
        let nothing = process-pending fuel s' in
        (
          rested nothing (process-Runs fuel s' (moved r)),
          nothing,
          rested_stops (process b z fuel s') (process_ends fuel s' (omega arith)),
          refl,
        )
