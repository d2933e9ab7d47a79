-- ===== src/Client/Dirs/Choice.antt =====
-- Which directory is chosen, and that no path is tried twice.
use bgx.Base.{
  ℕ, suc, ◌<◌, ◌≡◌, ◌≢◌, refl, false, ◌⊎◌, inl, inr, List, [], ◌∷◌, ◌++◌, none, some, Bytes, All,
  All-append, ◌==◌, if◌then◌else◌, length, length-append, append-nil, append_assoc, arith,
  Option-cases,
}
use bgx.Client.Dirs.{
  DirCandidate, DirResolution, Usable, attempt, fallback_text, resolve_from, compute_dir_resolution,
  first_name,
}

-- The errors of the candidates that were tried before the chosen one.
abbrev Fails : Usable → List DirCandidate → Type 0
Fails usable = All (λ c. (err : Bytes) × (usable c.path ≡ some err))

-- The candidate chosen is the first usable one; a notice is given exactly if it is not the first of
-- all, and an error, with no directory, exactly if none is usable.
pub data Resolved (usable : Usable) (candidates : List DirCandidate) (r : DirResolution)
    : Type 0 where
  chosen :
      (before : List DirCandidate) (c : DirCandidate) (after : List DirCandidate)
      → candidates ≡ before ++ c ∷ after
      → Fails usable before
      → usable c.path ≡ none
      → r.base ≡ c.path
      → r.err ≡ none
      → (r.notice ≡ []) ⊎ (0 < length before)
      → (before ≡ []) ⊎ (r.notice ≢ [])
      → Resolved usable candidates r
  failed :
      Fails usable candidates
      → r.base ≡ []
      → r.notice ≡ []
      → r.err ≢ none
      → Resolved usable candidates r

module _ (usable : Usable) (kind first : Bytes) where
  resolve_from-good :
      (i : ℕ) (attempts : List Bytes) (c : DirCandidate) (cs : List DirCandidate)
      → usable c.path ≡ none
      → resolve_from usable kind first i attempts (c ∷ cs) ≡ record {
        base = c.path;
        notice = if i == 0 then [] else fallback_text first c attempts;
        err = none;
      }
  unfolding resolve_from
  resolve_from-good i attempts c cs e = rw (e, resolve_from) refl

  resolve_from-bad :
      (i : ℕ) (attempts : List Bytes) (c : DirCandidate) (cs : List DirCandidate) {err : Bytes}
      → usable c.path ≡ some err
      → resolve_from usable kind first i attempts (c ∷ cs)
        ≡ resolve_from usable kind first (suc i) (attempts ++ attempt c err ∷ []) cs
  unfolding resolve_from
  resolve_from-bad i attempts c cs e = rw (e, resolve_from) refl

  none_left :
      (attempts : List Bytes) (before : List DirCandidate)
      → Fails usable before
      → Resolved usable (before ++ []) (resolve_from usable kind first (length before) attempts [])
  unfolding resolve_from
  none_left attempts before h = failed (rw append-nil h) refl refl (λ e. cc)

  first_good :
      (attempts : List Bytes) (before : List DirCandidate) (c : DirCandidate)
      (cs : List DirCandidate)
      → Fails usable before
      → usable c.path ≡ none
      → Resolved usable (before ++ c ∷ cs) (record {
        base = c.path;
        notice = if length before == 0 then [] else fallback_text first c attempts;
        err = none;
      })
  first_good attempts [] c cs h good = chosen [] c cs refl h good refl refl (inl refl) (inl refl)
  first_good attempts (d ∷ before) c cs h good =
      let later : (length (d ∷ before) == 0) ≡ false = ground arith in
      rw later (chosen (d ∷ before) c cs refl h good refl refl (inr (omega arith)) (inr (λ e. cc)))

  resolve_from-Resolved :
      (attempts : List Bytes) (before cs : List DirCandidate)
      → Fails usable before
      → Resolved usable (before ++ cs) (resolve_from usable kind first (length before) attempts cs)
  resolve_from-Resolved attempts before [] h = none_left attempts before h
  resolve_from-Resolved attempts before (c ∷ cs) h = elim (Option-cases (usable c.path)) [
    | inl good ↦
        rw (resolve_from-good (length before) attempts c cs good)
          (first_good attempts before c cs h good)
    | inr (err, bad) ↦
        let more =
          resolve_from-Resolved (attempts ++ attempt c err ∷ []) (before ++ c ∷ []) cs
            (All-append _ before (c ∷ []) h ((err, bad), tt)) in
        let size : length (before ++ c ∷ []) ≡ suc (length before) =
          omega (arith, length-append before (c ∷ [])) in
        let there : (before ++ c ∷ []) ++ cs ≡ before ++ c ∷ cs = append_assoc before (c ∷ []) cs in
        rw (resolve_from-bad (length before) attempts c cs bad) (rw (size, there) at more)
  ]

-- `computeDirResolution` chooses the first usable candidate. It gives a notice exactly if that is not
-- the first of all, and an error, with no directory, exactly if no candidate is usable.
pub compute_dir_resolution-Resolved :
    (usable : Usable) (candidates : List DirCandidate) (kind : Bytes)
    → Resolved usable candidates (compute_dir_resolution usable candidates kind)
unfolding compute_dir_resolution
compute_dir_resolution-Resolved usable candidates kind =
    resolve_from-Resolved usable kind (first_name candidates) [] [] candidates tt
