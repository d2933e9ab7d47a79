-- ===== src/Client/Start/Held.antt =====
-- What the daemons do while a start holds the lock.
use bgx.Base.{
  ℕ, suc, ◌+◌, ◌≡◌, ◌≤◌, refl, ap, ◌∙◌, subst, false, inl, inr, ◌⊎◌, List, [], ◌∷◌, ◌++◌, Bytes,
  length, All, arith,
}
use bgx.Daemon.Retention.{same_bytes}
use bgx.Client.Start.{Daemon, World}
use bgx.Client.Start.Steps.{Outside, listens, displaces, exits, fails, closes, persists, prunes}

length-middle :
    {A : Type 0} (before after : List A) (x : A)
    → length (before ++ x ∷ after) ≡ suc (length (before ++ after))
length-middle [] after x = refl
length-middle (y ∷ before) after x = ap suc (length-middle before after x)

All-middle :
    {A : Type 0} (P : A → Type 0) (before after : List A) (x : A)
    → All P (before ++ x ∷ after)
    → P x × All P (before ++ after)
All-middle P [] after x h = h
All-middle P (y ∷ before) after x (first, h) =
    let (here, rest) = All-middle P before after x h in (here, (first, rest))

-- At most `slots` daemons boot, and with `room` more there are no more than `cap` sessions.
abbrev pub Fits : ℕ → ℕ → ℕ → World → Type 0
Fits most slots room w =
    (length w.booting ≤ slots) × (length w.booting + length w.live + room ≤ most)

-- The id is none of a daemon that answers or is ending.
abbrev pub Away : Bytes → World → Type 0
Away id w =
    All (λ (d : Daemon). same_bytes d.id id ≡ false) w.live
    × All (λ (d : Daemon). same_bytes d.id id ≡ false) w.ending

abbrev pub NotRecorded : Bytes → World → Type 0
NotRecorded id w = All (λ (r : Bytes). same_bytes r id ≡ false) w.records

pub Fits-Outside :
    (most slots room : ℕ) {w w' : World}
    → Outside w w'
    → Fits most slots room w
    → Fits most slots room w'
Fits-Outside most slots room (listens w before after d eq fresh) h =
    let n = ap length eq ∙ length-middle before after d in
    let few = h.0 in let within = h.1 in (omega arith, omega arith)
Fits-Outside most slots room (displaces w before after front back d x eq live_eq same) h =
    let n = ap length eq ∙ length-middle before after d in
    let m = ap length live_eq ∙ length-middle front back x in
    let few = h.0 in let within = h.1 in (omega arith, omega arith)
Fits-Outside most slots room (exits w before after d eq) h =
    let n = ap length eq ∙ length-middle before after d in
    let few = h.0 in let within = h.1 in (omega arith, omega arith)
Fits-Outside most slots room (fails w before after d eq) h =
    let n = ap length eq ∙ length-middle before after d in
    let few = h.0 in let within = h.1 in (omega arith, omega arith)
Fits-Outside most slots room (closes w before after d eq) h =
    let n = ap length eq ∙ length-middle before after d in let within = h.1 in (h.0, omega arith)
Fits-Outside most slots room (persists w before after d eq) h = (h.0, h.1)
Fits-Outside most slots room (prunes w before after kept id last eq some_left) h = (h.0, h.1)

-- No daemon boots, or the id is free.
abbrev pub Free : Bytes → World → Type 0
Free id w = (length w.booting ≡ 0) ⊎ (Away id w × NotRecorded id w)

-- One that boots, boots alone.
alone :
    {A : Type 0} (l before after : List A) (x : A)
    → l ≡ before ++ x ∷ after
    → length l ≤ 1
    → length (before ++ after) ≡ 0
alone l before after x eq h = let n = ap length eq ∙ length-middle before after x in omega arith

none_of :
    {A : Type 0} (l before after : List A) (x : A) → l ≡ before ++ x ∷ after → length l ≤ 0 → ⊥
none_of l before after x eq h = let n = ap length eq ∙ length-middle before after x in omega arith

Away-closes :
    (id : Bytes) (w : World) (before after : List Daemon) (d : Daemon)
    → w.live ≡ before ++ d ∷ after
    → Away id w
    → Away id (record w { live = before ++ after; ending = d ∷ w.ending })
Away-closes id w before after d eq h =
    let P = λ (x : Daemon). same_bytes x.id id ≡ false in
    let (other, rest) = All-middle P before after d (subst (All P) eq h.0) in (rest, (other, h.1))

Away-persists :
    (id : Bytes) (w : World) (before after : List Daemon) (d : Daemon)
    → w.ending ≡ before ++ d ∷ after
    → Away id w
    → (same_bytes d.id id ≡ false)
      × Away id (record w { ending = before ++ after; records = d.id ∷ w.records })
Away-persists id w before after d eq h =
    let P = λ (x : Daemon). same_bytes x.id id ≡ false in
    let (other, rest) = All-middle P before after d (subst (All P) eq h.1) in (other, (h.0, rest))

pub Away-Outside :
    (id : Bytes) {w w' : World} → Outside w w' → length w.booting ≤ 0 → Away id w → Away id w'
Away-Outside id (listens w before after d eq fresh) none_boots h =
    absurd (none_of w.booting before after d eq none_boots)
Away-Outside id (displaces w before after front back d x eq live_eq same) none_boots h =
    absurd (none_of w.booting before after d eq none_boots)
Away-Outside id (exits w before after d eq) none_boots h = (h.0, h.1)
Away-Outside id (fails w before after d eq) none_boots h = (h.0, h.1)
Away-Outside id (closes w before after d eq) none_boots h = Away-closes id w before after d eq h
Away-Outside id (persists w before after d eq) none_boots h =
    (Away-persists id w before after d eq h).1
Away-Outside id (prunes w before after kept r last eq some_left) none_boots h = (h.0, h.1)

pub Free-Outside :
    (id : Bytes) {w w' : World} → Outside w w' → length w.booting ≤ 1 → Free id w → Free id w'
Free-Outside id (listens w before after d eq fresh) few h =
    inl (alone w.booting before after d eq few)
Free-Outside id (displaces w before after front back d x eq live_eq same) few h =
    inl (alone w.booting before after d eq few)
Free-Outside id (exits w before after d eq) few h = inl (alone w.booting before after d eq few)
Free-Outside id (fails w before after d eq) few h = inl (alone w.booting before after d eq few)
Free-Outside id (closes w before after d eq) few (inl none_boots) = inl none_boots
Free-Outside id (closes w before after d eq) few (inr (away, rest)) =
    inr (Away-closes id w before after d eq away, rest)
Free-Outside id (persists w before after d eq) few (inl none_boots) = inl none_boots
Free-Outside id (persists w before after d eq) few (inr (away, rest)) =
    let (other, away') = Away-persists id w before after d eq away in inr (away', (other, rest))
Free-Outside id (prunes w before after kept r last eq some_left) few (inl none_boots) =
    inl none_boots
Free-Outside id (prunes w before after kept r last eq some_left) few (inr (away, rest)) =
    let P = λ (x : Bytes). same_bytes x id ≡ false in
    inr ((away.0, away.1), (All-middle P before after r (subst (All P) eq rest)).1)

-- The id is free while no daemon boots.
pub NotRecorded-Outside :
    (id : Bytes) {w w' : World}
    → Outside w w'
    → length w.booting ≤ 0
    → Away id w
    → NotRecorded id w
    → NotRecorded id w'
NotRecorded-Outside id (listens w before after d eq fresh) none_boots away h = h
NotRecorded-Outside id (displaces w before after front back d x eq live_eq same) none_boots away h =
    h
NotRecorded-Outside id (exits w before after d eq) none_boots away h = h
NotRecorded-Outside id (fails w before after d eq) none_boots away h =
    absurd (none_of w.booting before after d eq none_boots)
NotRecorded-Outside id (closes w before after d eq) none_boots away h = h
NotRecorded-Outside id (persists w before after d eq) none_boots away h =
    ((Away-persists id w before after d eq away).0, h)
NotRecorded-Outside id (prunes w before after kept r last eq some_left) none_boots away h =
    let P = λ (x : Bytes). same_bytes x id ≡ false in
    (All-middle P before after r (subst (All P) eq h)).1

pub Own-Outside :
    (pid : ℕ) {w w' : World}
    → Outside w w'
    → All (λ (d : Daemon). d.pid ≡ pid) w.booting
    → All (λ (d : Daemon). d.pid ≡ pid) w'.booting
Own-Outside pid (listens w before after d eq fresh) h =
    let P = λ (x : Daemon). x.pid ≡ pid in (All-middle P before after d (subst (All P) eq h)).1
Own-Outside pid (displaces w before after front back d x eq live_eq same) h =
    let P = λ (y : Daemon). y.pid ≡ pid in (All-middle P before after d (subst (All P) eq h)).1
Own-Outside pid (exits w before after d eq) h =
    let P = λ (x : Daemon). x.pid ≡ pid in (All-middle P before after d (subst (All P) eq h)).1
Own-Outside pid (fails w before after d eq) h =
    let P = λ (x : Daemon). x.pid ≡ pid in (All-middle P before after d (subst (All P) eq h)).1
Own-Outside pid (closes w before after d eq) h = h
Own-Outside pid (persists w before after d eq) h = h
Own-Outside pid (prunes w before after kept r last eq some_left) h = h
