-- ===== src/Client/Start/Within.antt =====
-- The limit of a namespace.
use bgx.Base.{
  ℕ, suc, ◌+◌, ◌≡◌, ◌≤◌, refl, sym, ◌∙◌, subst, Bool, true, false, inl, inr, List, [], ◌∷◌, Option,
  none, some, Bytes, length, All, arith, leb, Bool-cases, if◌then◌else◌,
}
use bgx.Client.Start.{
  Daemon, Start, World, Phase, check_running, check_record, replace_record, replace_history,
  check_limit, spawn, wait_live, wait_record, wait_exit, recheck_live, recheck_record, leaving,
  Chance, limit_of, has_id, has_pid, recorded, turn, has_exited,
}
use bgx.Client.Start.Steps.{
  Outside, listens, displaces, exits, fails, closes, persists, prunes, Step, outside, locks, goes,
  Reachable, begins, steps,
}
use bgx.Client.Start.Held.{Fits, Away, NotRecorded, Free, Fits-Outside}
use bgx.Client.Start.Holds.{
  Holds, Holds-Outside, Patient, Sound, All-has_id, not_has_id, All-recorded, not_recorded,
  All-without, none_boots,
}

-- Either way a test goes.
branch :
    (P : World → Type 0) (b : Bool) (w w' : World)
    → (b ≡ true → P w)
    → (b ≡ false → P w')
    → P (if b then w else w')
branch P true w w' h h' = h refl
branch P false w w' h h' = h' refl

abbrev After : ℕ → World → Type 0
After most w = Sound most w.holder w

-- Where nothing boots, what held of a wait holds without it.
idle : (most : ℕ) (w : World) → length w.booting ≡ 0 → Fits most 1 0 w → Fits most 0 0 w
idle most w h (few, within) = (omega arith, within)

not_free :
    (most : ℕ) (id : Bytes) (w : World)
    → ((Away id w × NotRecorded id w) → ⊥)
    → Fits most 1 0 w
    → Free id w
    → Fits most 0 0 w
not_free most id w h fits (inl none_there) = idle most w none_there fits
not_free most id w h fits (inr free) = absurd (h free)

has_no_pid :
    (ch : Chance) (pid : ℕ) (w : World) → has_exited ch pid w ≡ true → has_pid pid w.booting ≡ false
has_no_pid ch pid w h = elim (Bool-cases ch.exited) [
  | inl seen ↦ elim (Bool-cases (has_pid pid w.booting)) [
    | inl there ↦ let h' : false ≡ true = rw (seen, there) at h in cc
    | inr gone ↦ gone
  ]
  | inr not_seen ↦ let h' : false ≡ true = rw not_seen at h in cc
]

empty_of : {A : Type 0} (l : List A) → length l ≤ 0 → l ≡ []
empty_of [] h = refl
empty_of (x ∷ l) h = absurd (omega arith)

turn-After :
    (most : ℕ) (s : Start) (ph : Phase) (ch : Chance) (w : World)
    → limit_of s.concurrency ≤ most
    → Holds most s.id ph w
    → Patient w s ph ch
    → After most (turn ch s ph w)
unfolding turn
turn-After most s check_running ch w le fits p =
    branch (After most) (has_id s.id w.live) _ _ (λ h. (fits, le))
      (λ h. ((fits, (All-has_id s.id w.live h, All-has_id s.id w.ending p)), le))
turn-After most s check_record ch w le (fits, away) p =
    branch (After most) (recorded s.id w.records) _ _
      (λ h. branch (After most) s.overwrite_id _ _ (λ k. ((fits, away), le)) (λ k. (fits, le)))
      (λ h. ((fits, away, All-recorded s.id w.records h), le))
turn-After most s replace_record ch w le (fits, away) p =
    branch (After most) ch.fails _ _ (λ h. (fits, le))
      (λ h. ((fits, away, All-without s.id w.records), le))
turn-After most s replace_history ch w le (fits, away, free) p =
    branch (After most) ch.fails _ _ (λ h. (fits, le)) (λ h. ((fits, away, free), le))
turn-After most s check_limit ch w le ((few, within), away, free) p =
    branch (After most) (leb (limit_of s.concurrency) (length w.live)) _ _
      (λ h. ((few, within), le))
      (λ h.
        let room : suc (length w.live) ≤ limit_of s.concurrency = ground arith in
        (((few, omega arith), away, free), le))
turn-After most s spawn ch w le ((few, within), away, free) p =
    let nothing : w.booting ≡ [] = empty_of w.booting few in
    branch (After most) ch.fails _ _ (λ h. ((few, omega arith), le))
      (λ h. (
        (
          (omega arith, omega arith),
          (
            refl,
            subst (λ (l : List Daemon). All (λ (d : Daemon). d.pid ≡ w.next_pid) l) (sym nothing)
                tt,
          ),
          inr (away, free),
        ),
        le,
      ))
turn-After most s (wait_live pid) ch w le (fits, own, free) p =
    branch (After most) ch.canceled _ _ (λ h. let no_way : true ≡ false = sym h ∙ p in cc)
      (λ h.
        branch (After most) (has_id s.id w.live) _ _
          (λ k. (
            not_free most s.id w (λ (away, rest). let k' = not_has_id s.id w.live away.0 in cc) fits
                free,
            le,
          ))
          (λ k. ((fits, own, free), le)))
turn-After most s (wait_record pid) ch w le (fits, own, free) p =
    branch (After most) (recorded s.id w.records) _ _
      (λ k. (
        not_free most s.id w (λ (away, rest). let k' = not_recorded s.id w.records rest in cc) fits
            free,
        le,
      ))
      (λ k. ((fits, own, free), le))
turn-After most s (wait_exit pid) ch w le (fits, own, free) p =
    branch (After most) (has_exited ch pid w) _ _
      (λ h. (idle most w (none_boots pid w.booting own (has_no_pid ch pid w h)) fits, le))
      (λ h.
        branch (After most) ch.late _ _ (λ k. let no_way : true ≡ false = sym k ∙ p in cc)
          (λ k. ((fits, own, free), le)))
turn-After most s (recheck_live pid) ch w le fits p =
    branch (After most) (has_id s.id w.live) _ _ (λ h. (fits, le)) (λ h. (fits, le))
turn-After most s (recheck_record pid) ch w le fits p =
    branch (After most) (recorded s.id w.records) _ _ (λ h. (fits, le))
      (λ h. branch (After most) ch.late _ _ (λ k. (fits, le)) (λ k. (fits, le)))
turn-After most s (leaving o) ch w le fits p = fits

holder-Outside : {w w' : World} → Outside w w' → w'.holder ≡ w.holder
holder-Outside (listens w before after d eq fresh) = refl
holder-Outside (displaces w before after front back d x eq live_eq same) = refl
holder-Outside (exits w before after d eq) = refl
holder-Outside (fails w before after d eq) = refl
holder-Outside (closes w before after d eq) = refl
holder-Outside (persists w before after d eq) = refl
holder-Outside (prunes w before after kept r last eq some_left) = refl

Sound-Outside :
    (most : ℕ) (holder : Option (Start × Phase)) {w w' : World}
    → Outside w w'
    → Sound most holder w
    → Sound most holder w'
Sound-Outside most none o h = Fits-Outside most 0 0 o h
Sound-Outside most (some (s, ph)) o (h, le) = (Holds-Outside most s.id ph o h, le)

Sound-Step : (most : ℕ) {w w' : World} → Step Patient most w w' → After most w → After most w'
Sound-Step most (outside {w = w} {w' = w'} o) h =
    subst (λ (x : Option (Start × Phase)). Sound most x w') (sym (holder-Outside o))
      (Sound-Outside most w.holder o h)
Sound-Step most (locks w s free le) h =
    let fits : Fits most 0 0 w = subst (λ (x : Option (Start × Phase)). Sound most x w) free h in
    (fits, le)
Sound-Step most (goes w s ph ch held p) h =
    let (holds, le) : Sound most (some (s, ph)) w =
      subst (λ (x : Option (Start × Phase)). Sound most x w) held h in
    turn-After most s ph ch w le holds p

Reachable-After : (most : ℕ) {w : World} → Reachable Patient most w → After most w
Reachable-After most begins = (omega arith, omega arith)
Reachable-After most (steps r st) = Sound-Step most st (Reachable-After most r)

Holds-within :
    (most : ℕ) (id : Bytes) (ph : Phase) (w : World)
    → Holds most id ph w
    → length w.booting + length w.live ≤ most
Holds-within most id check_running w (few, within) = omega arith
Holds-within most id check_record w ((few, within), rest) = omega arith
Holds-within most id replace_record w ((few, within), rest) = omega arith
Holds-within most id replace_history w ((few, within), first, rest) = omega arith
Holds-within most id check_limit w ((few, within), first, rest) = omega arith
Holds-within most id spawn w ((few, within), first, rest) = omega arith
Holds-within most id (wait_live pid) w ((few, within), first, rest) = omega arith
Holds-within most id (wait_record pid) w ((few, within), first, rest) = omega arith
Holds-within most id (wait_exit pid) w ((few, within), first, rest) = omega arith
Holds-within most id (recheck_live pid) w (few, within) = omega arith
Holds-within most id (recheck_record pid) w (few, within) = omega arith
Holds-within most id (leaving o) w (few, within) = omega arith

Sound-within :
    (most : ℕ) (holder : Option (Start × Phase)) (w : World)
    → Sound most holder w
    → length w.booting + length w.live ≤ most
Sound-within most none w (few, within) = omega arith
Sound-within most (some (s, ph)) w (h, le) = Holds-within most s.id ph w h

-- In every run of starts with limits up to a number, and of daemons, in any order, in which no wait for
-- a daemon is canceled or times out, and none looks up its id while a session of that id has closed its
-- listener and not persisted its record yet: the sessions that answer and those that may answer yet
-- are together no more than that number.
pub Reachable-within :
    (most : ℕ) (w : World) → Reachable Patient most w → length w.booting + length w.live ≤ most
Reachable-within most w r = Sound-within most w.holder w (Reachable-After most r)
