-- ===== src/Client/Sessions.antt =====
-- sessions.go, and matchesMetadata of client.go: the listing of live and ended sessions. A map is a list
-- without two entries of one key; the order in which Go ranges over it is a parameter.
pub mod Listed
pub mod Order
pub mod Found
pub mod Sort
pub mod Merge
mod Tests
use bgx.Base.{
  Bool, true, false, not, ◌&&◌, List, [], ◌∷◌, ◌++◌, Option, none, some, Bytes, ltb, ◌==◌,
  if◌then◌else◌,
}
use bgx.Daemon.Protocol.{Info}
use bgx.Daemon.Retention.{same_bytes}

-- `a < b` on strings.
abbrev pub less : Bytes → Bytes → Bool
less [] [] = false
less [] (d ∷ q) = true
less (c ∷ p) [] = false
less (c ∷ p) (d ∷ q) = let rest = less p q in if c == d then rest else ltb c d

-- `info.Metadata[k]`, the empty string where there is none.
abbrev pub value : Bytes → List (Bytes × Bytes) → Bytes
value k [] = []
value k ((name, v) ∷ metadata) =
    let rest = value k metadata in if same_bytes name k then v else rest

abbrev pub matches_metadata : Info → List (Bytes × Bytes) → Bool
matches_metadata i [] = true
matches_metadata i ((k, v) ∷ filters) =
    let rest = matches_metadata i filters in
    if not (same_bytes (value k i.metadata) v) then false else rest

-- `byID[info.ID] = info`.
abbrev pub put : Info → List Info → List Info
put i [] = i ∷ []
put i (x ∷ m) = let rest = put i m in if same_bytes x.id i.id then i ∷ m else x ∷ rest

-- `byID[id]`.
abbrev pub found : Bytes → List Info → Option Info
found id [] = none
found id (x ∷ m) = let rest = found id m in if same_bytes x.id id then some x else rest

abbrev pub put_running : List Info → List Info → List Info
put_running [] m = m
put_running (i ∷ infos) m = put_running infos (put i m)

-- A live session shadows the record of the same id.
abbrev pub put_absent : Option Info → Info → List Info → List Info
put_absent none i m = put i m
put_absent (some x) i m = m

abbrev pub put_ended : List Info → List Info → List Info
put_ended [] m = m
put_ended (i ∷ infos) m = put_ended infos (put_absent (found i.id m) i m)

abbrev pub keep_matching : List (Bytes × Bytes) → List Info → List Info
keep_matching filters [] = []
keep_matching filters (i ∷ infos) =
    let rest = keep_matching filters infos in if matches_metadata i filters then i ∷ rest else rest

-- `sort.Slice` by id.
abbrev pub insert : Info → List Info → List Info
insert i [] = i ∷ []
insert i (x ∷ infos) =
    let rest = insert i infos in if less i.id x.id then i ∷ x ∷ infos else x ∷ rest

abbrev pub sort : List Info → List Info
sort [] = []
sort (i ∷ infos) = insert i (sort infos)

unfoldable pub filter_sessions : List Info → List (Bytes × Bytes) → List Info
filter_sessions infos filters = sort (keep_matching filters infos)

abbrev pub by_id : List Info → List Info → List Info
by_id running ended = put_ended ended (put_running running [])

-- `ListSessions`, where `ranged` gives the entries of the map in the order of `range`.
unfoldable pub list_sessions :
    (List Info → List Info) → List Info → List Info → List (Bytes × Bytes) → List Info
list_sessions ranged running ended filters = filter_sessions (ranged (by_id running ended)) filters
