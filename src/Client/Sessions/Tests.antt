-- ===== src/Client/Sessions/Tests.antt =====
-- A listing of two running sessions and two records of ended ones.
use bgx.Base.{◌≡◌, refl, true, false, List, [], ◌∷◌, none, Bytes, codes}
use bgx.Base.Int.{pos}
use bgx.Daemon.Protocol.{Info}
use bgx.Client.Sessions.{found, filter_sessions, list_sessions}
use bgx.Client.Sessions.Found.{or_else, latest}
use bgx.Client.Sessions.Listed.{if_matching}
use bgx.Client.Sessions.Sort.{Sorted, Reordered}
use bgx.Client.Sessions.Merge.{list_sessions-Sorted}

-- A session of the user's or of a machine's.
abbrev session : Bytes → Bytes → Info
session id owner = record {
  id = id;
  running = true;
  pid = 7;
  command = codes "sh" ∷ [];
  metadata = (codes "owner", owner) ∷ [];
  started_at = 0;
  ended_at = none;
  duration_ms = pos 0;
  output_bytes = 0;
  exit_code = none;
  killed = false;
  error = [];
}

abbrev ended : Info → Info
ended i = record i { running = false }

abbrev a_running : Info
a_running = session (codes "a") (codes "me")

abbrev c_running : Info
c_running = session (codes "c") (codes "ci")

abbrev a_ended : Info
a_ended = ended (session (codes "a") (codes "ci"))

abbrev b_ended : Info
b_ended = ended (session (codes "b") (codes "me"))

abbrev runs : List Info
runs = c_running ∷ a_running ∷ []

abbrev records : List Info
records = b_ended ∷ a_ended ∷ []

abbrev mine : List (Bytes × Bytes)
mine = (codes "owner", codes "me") ∷ []

same_order : (m : List Info) → Reordered m m
same_order [] = Reordered.empty
same_order (x ∷ m) = Reordered.under x (same_order m)

-- An order of the entries.
abbrev second_first : List Info → List Info
second_first [] = []
second_first (x ∷ []) = x ∷ []
second_first (x ∷ y ∷ m) = y ∷ x ∷ m

any_order : (m : List Info) → Reordered m (second_first m)
any_order [] = Reordered.empty
any_order (x ∷ []) = same_order (x ∷ [])
any_order (x ∷ y ∷ m) = Reordered.swap x y m

all_listed : list_sessions second_first runs records [] ≡ a_running ∷ b_ended ∷ c_running ∷ []
unfolding list_sessions filter_sessions
all_listed = refl

mine_listed : list_sessions second_first runs records mine ≡ a_running ∷ b_ended ∷ []
unfolding list_sessions filter_sessions
mine_listed = refl

list_sessions-Sorted_example :
    Sorted (list_sessions second_first runs records mine)
    × ((id : Bytes)
        → found id (list_sessions second_first runs records mine)
          ≡ if_matching mine (or_else (latest id runs) (found id records)))
list_sessions-Sorted_example = list_sessions-Sorted second_first runs records mine any_order
