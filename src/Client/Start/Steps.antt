-- ===== src/Client/Start/Steps.antt =====
-- The steps of starts, of daemons and of the retention.
use bgx.Base.{ℕ, ◌≡◌, ◌≤◌, false, List, ◌∷◌, ◌++◌, none, some, Bytes}
use bgx.Client.Start.{
  Daemon, Start, Phase, check_running, World, no_world, Chance, has_id, limit_of, at, turn,
}

-- What the daemons and the retention do at any time. A daemon that listens takes the socket from one
-- of its id. A daemon that fails may leave a record. The retention leaves one record at least.
pub data Outside : World → World → Type 0 where
  listens :
      (w : World) (before after : List Daemon) (d : Daemon)
      → w.booting ≡ before ++ d ∷ after
      → has_id d.id w.live ≡ false
      → Outside w (record w { booting = before ++ after; live = d ∷ w.live })
  displaces :
      (w : World) (before after front back : List Daemon) (d x : Daemon)
      → w.booting ≡ before ++ d ∷ after
      → w.live ≡ front ++ x ∷ back
      → x.id ≡ d.id
      → Outside w
          (record w { booting = before ++ after; live = d ∷ front ++ back; ending = x ∷ w.ending })
  exits :
      (w : World) (before after : List Daemon) (d : Daemon)
      → w.booting ≡ before ++ d ∷ after
      → Outside w (record w { booting = before ++ after })
  fails :
      (w : World) (before after : List Daemon) (d : Daemon)
      → w.booting ≡ before ++ d ∷ after
      → Outside w (record w { booting = before ++ after; records = d.id ∷ w.records })
  closes :
      (w : World) (before after : List Daemon) (d : Daemon)
      → w.live ≡ before ++ d ∷ after
      → Outside w (record w { live = before ++ after; ending = d ∷ w.ending })
  persists :
      (w : World) (before after : List Daemon) (d : Daemon)
      → w.ending ≡ before ++ d ∷ after
      → Outside w (record w { ending = before ++ after; records = d.id ∷ w.records })
  prunes :
      (w : World) (before after kept : List Bytes) (id last : Bytes)
      → w.records ≡ before ++ id ∷ after
      → before ++ after ≡ last ∷ kept
      → Outside w (record w { records = before ++ after })

-- Which steps of a start are looked at.
abbrev pub Allowance : Type 1
Allowance = World → Start → Phase → Chance → Type 0

-- A step where no start has a limit above `cap`.
pub data Step (Allowed : Allowance) (cap : ℕ) : World → World → Type 0 where
  outside : {w w' : World} → Outside w w' → Step Allowed cap w w'
  locks :
      (w : World) (s : Start)
      → w.holder ≡ none
      → limit_of s.concurrency ≤ cap
      → Step Allowed cap w (at w s check_running)
  goes :
      (w : World) (s : Start) (ph : Phase) (ch : Chance)
      → w.holder ≡ some (s, ph)
      → Allowed w s ph ch
      → Step Allowed cap w (turn ch s ph w)

pub data Reachable (Allowed : Allowance) (cap : ℕ) : World → Type 0 where
  begins : Reachable Allowed cap no_world
  steps :
      {w w' : World} → Reachable Allowed cap w → Step Allowed cap w w' → Reachable Allowed cap w'
