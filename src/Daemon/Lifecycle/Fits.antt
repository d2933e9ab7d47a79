-- ===== src/Daemon/Lifecycle/Fits.antt =====
-- What holds of a handler, and a turn's part in it.
use bgx.Base.{
  ◌≡◌, refl, Bool, true, false, not, ◌&&◌, ◌⊎◌, inl, inr, List, [], ◌∷◌, ◌++◌, Option, none, some,
  All, Bool-cases, if◌then◌else◌,
}
use bgx.Base.Int.{ℤ}
use bgx.Daemon.Lifecycle.{
  WaitStatus, conventional_exit_code, Proc, alive, exited, recorded, reaped, is_alive, Handler,
  kill, wait, kill_asked, hup_due, hup_sent, kill_due, kill_sent, kill_returned, waiting, refused,
  replied, answered, World, turn,
}

abbrev pub is_ended : Proc → Bool
is_ended (recorded st) = true
is_ended (reaped st) = true
is_ended _ = false

abbrev pub is_reaped : Proc → Bool
is_reaped (reaped st) = true
is_reaped _ = false

pub ended_then : (p : Proc) → is_reaped p ≡ true → is_ended p ≡ true
ended_then (reaped st) h = refl
ended_then (recorded st) h = refl
ended_then alive h = cc
ended_then (exited st) h = cc

-- The code that a command that has been waited for ended with.
abbrev pub Code : Proc → ℤ → Type 0
Code (recorded st) code = code ≡ conventional_exit_code st
Code (reaped st) code = code ≡ conventional_exit_code st
Code _ code = ⊥

-- What holds of a handler: one that waits behind SIGKILL waits for a command that is doomed or has
-- exited, one behind `kill` for nothing, since the command has been waited for, and a reply has the
-- code.
abbrev pub Fits : Proc → Bool → Handler → Type 0
Fits p doomed (kill kill_sent) = (is_alive p && not doomed) ≡ false
Fits p doomed (kill kill_returned) = is_ended p ≡ true
Fits p doomed (kill (replied code)) = Code p code
Fits p doomed (wait (answered code)) = Code p code
Fits p doomed _ = Unit

pub record Consistent (w : World) : Type 0 where
  pub ended_is : w.ended ≡ is_ended w.proc
  pub done_is : w.is_done ≡ is_reaped w.proc
  pub code_is : is_ended w.proc ≡ true → Code w.proc w.exit_code
  pub fit : All (Fits w.proc w.doomed) w.handlers

-- What a turn leaves of the world, and where the handler is then.
pub record Turned (w w' : World) (h' : Handler) : Type 0 where
  pub proc : w'.proc ≡ w.proc
  pub ended : w'.ended ≡ w.ended
  pub is_done : w'.is_done ≡ w.is_done
  pub exit_code : w'.exit_code ≡ w.exit_code
  pub doomed : (w'.doomed ≡ w.doomed) ⊎ (w'.doomed ≡ true)
  pub fits : Fits w.proc w'.doomed h'

abbrev pub Sound : World → Option (World × Handler) → Type 0
Sound w none = Unit
Sound w (some (w', h')) = Turned w w' h'

unchanged : (w : World) (h : Handler) → Fits w.proc w.doomed h → Turned w w h
unchanged w h f = record {
  proc = refl;
  ended = refl;
  is_done = refl;
  exit_code = refl;
  doomed = inl refl;
  fits = f;
}

doom :
    (p : Proc) (d : Bool)
    → let d' = if is_alive p then true else d in
      ((d' ≡ d) ⊎ (d' ≡ true)) × ((is_alive p && not d') ≡ false)
doom alive d = (inr refl, refl)
doom (exited st) d = (inl refl, refl)
doom (recorded st) d = (inl refl, refl)
doom (reaped st) d = (inl refl, refl)

both : (a b : Bool) → (a && b) ≡ true → a ≡ true
both true b h = refl
both false b h = cc

pub turn-Sound :
    (choice : Bool) (w : World) (h : Handler)
    → (w.ended ≡ true → is_ended w.proc ≡ true)
    → (w.is_done ≡ true → is_ended w.proc ≡ true)
    → (w.ended ≡ true → Code w.proc w.exit_code)
    → Sound w (turn choice w h)
turn-Sound choice w (kill kill_asked) over_is done_is code = elim (Bool-cases w.ended) [
  | inl over ↦ let over_is' = over_is over in rw over (unchanged _ (kill kill_returned) over_is')
  | inr runs ↦ rw runs (record {
    proc = refl;
    ended = refl;
    is_done = refl;
    exit_code = refl;
    doomed = inl refl;
    fits = tt;
  })
]
turn-Sound true w (kill hup_due) over_is done_is code = unchanged w (kill hup_sent) tt
turn-Sound false w (kill hup_due) over_is done_is code = unchanged w (kill refused) tt
turn-Sound choice w (kill hup_sent) over_is done_is code = elim (Bool-cases (w.is_done && choice)) [
  | inl over ↦
      let seen : w.is_done ≡ true = both w.is_done choice over in
      rw over (unchanged w (kill kill_returned) (done_is seen))
  | inr runs ↦ rw runs (unchanged w (kill kill_due) tt)
]
turn-Sound true w (kill kill_due) over_is done_is code =
    let (mono, safe) = doom w.proc w.doomed in
    record {
      proc = refl;
      ended = refl;
      is_done = refl;
      exit_code = refl;
      doomed = mono;
      fits = safe;
    }
turn-Sound false w (kill kill_due) over_is done_is code = unchanged w (kill refused) tt
turn-Sound choice w (kill kill_sent) over_is done_is code = elim (Bool-cases w.is_done) [
  | inl over ↦ let done' = done_is over in rw over (unchanged _ (kill kill_returned) done')
  | inr runs ↦ rw runs tt
]
turn-Sound choice w (kill kill_returned) over_is done_is code = elim (Bool-cases w.ended) [
  | inl over ↦ rw over (unchanged _ (kill (replied w.exit_code)) (code over))
  | inr runs ↦ rw runs tt
]
turn-Sound choice w (wait waiting) over_is done_is code = elim (Bool-cases w.ended) [
  | inl over ↦ rw over (unchanged _ (wait (answered w.exit_code)) (code over))
  | inr runs ↦ rw runs tt
]
turn-Sound choice w (kill refused) over_is done_is code = tt
turn-Sound choice w (kill (replied c)) over_is done_is code = tt
turn-Sound choice w (wait (answered c)) over_is done_is code = tt

-- A change that every handler stands.
pub All-map :
    (P Q : Handler → Type 0) (hs : List Handler) → ((h : Handler) → P h → Q h) → All P hs → All Q hs
All-map P Q [] f h = tt
All-map P Q (x ∷ xs) f (h, hs) = (f x h, All-map P Q xs f hs)

pub All-split :
    (P : Handler → Type 0) (before after : List Handler) (h : Handler)
    → All P (before ++ h ∷ after)
    → All P before × P h × All P after
All-split P [] after h (p, ps) = (tt, p, ps)
All-split P (x ∷ before) after h (p, ps) =
    let (b, m, a) = All-split P before after h ps in ((p, b), m, a)

pub exit-Fits : (st : WaitStatus) (h : Handler) (d : Bool) → Fits alive d h → Fits (exited st) d h
exit-Fits st (kill kill_sent) d f = refl
exit-Fits st (kill kill_returned) d f = cc
exit-Fits st (kill kill_asked) d f = tt
exit-Fits st (kill hup_due) d f = tt
exit-Fits st (kill hup_sent) d f = tt
exit-Fits st (kill kill_due) d f = tt
exit-Fits st (wait waiting) d f = tt
exit-Fits st (kill refused) d f = tt
exit-Fits st (kill (replied c)) d f = absurd f
exit-Fits st (wait (answered c)) d f = absurd f

pub record-Fits :
    (st : WaitStatus) (h : Handler) (d : Bool) → Fits (exited st) d h → Fits (recorded st) d h
record-Fits st (kill kill_sent) d f = refl
record-Fits st (kill kill_returned) d f = refl
record-Fits st (kill kill_asked) d f = tt
record-Fits st (kill hup_due) d f = tt
record-Fits st (kill hup_sent) d f = tt
record-Fits st (kill kill_due) d f = tt
record-Fits st (wait waiting) d f = tt
record-Fits st (kill refused) d f = tt
record-Fits st (kill (replied c)) d f = absurd f
record-Fits st (wait (answered c)) d f = absurd f

pub reap-Fits :
    (st : WaitStatus) (h : Handler) (d : Bool) → Fits (recorded st) d h → Fits (reaped st) d h
reap-Fits st (kill kill_sent) d f = refl
reap-Fits st (kill kill_returned) d f = refl
reap-Fits st (kill kill_asked) d f = tt
reap-Fits st (kill hup_due) d f = tt
reap-Fits st (kill hup_sent) d f = tt
reap-Fits st (kill kill_due) d f = tt
reap-Fits st (wait waiting) d f = tt
reap-Fits st (kill refused) d f = tt
reap-Fits st (kill (replied c)) d f = f
reap-Fits st (wait (answered c)) d f = f

not_doomed : (b : Bool) → (b && false) ≡ false
not_doomed true = refl
not_doomed false = refl

doom-Fits : (p : Proc) (d : Bool) (h : Handler) → Fits p d h → Fits p true h
doom-Fits p d (kill kill_sent) f = not_doomed (is_alive p)
doom-Fits p d (kill kill_returned) f = f
doom-Fits p d (kill kill_asked) f = tt
doom-Fits p d (kill hup_due) f = tt
doom-Fits p d (kill hup_sent) f = tt
doom-Fits p d (kill kill_due) f = tt
doom-Fits p d (wait waiting) f = tt
doom-Fits p d (kill refused) f = tt
doom-Fits p d (kill (replied c)) f = f
doom-Fits p d (wait (answered c)) f = f

pub mono-Fits :
    (p : Proc) (d d' : Bool) (h : Handler) → (d' ≡ d) ⊎ (d' ≡ true) → Fits p d h → Fits p d' h
mono-Fits p d d' h (inl same) f = rw same f
mono-Fits p d d' h (inr doomed) f = rw doomed (doom-Fits p d h f)
