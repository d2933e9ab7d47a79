-- ===== src/Client/Sessions/Merge.antt =====
-- The listing against what it promises.
use bgx.Base.{◌≡◌, ap, ◌∙◌, List, Bytes}
use bgx.Daemon.Protocol.{Info}
use bgx.Client.Sessions.{found, keep_matching, filter_sessions, list_sessions, by_id}
use bgx.Client.Sessions.Found.{or_else, latest, Distinct-by_id, found-by_id}
use bgx.Client.Sessions.Listed.{if_matching, found-keep_matching, Distinct-keep_matching}
use bgx.Client.Sessions.Sort.{Sorted, found-sort, Reordered, Sorted-sort, Keeps-Reordered}

-- In whatever order the entries of the map are ranged over, ListSessions is in the order of the ids,
-- each id below the next, and what it holds for an id is the last live session of that id, or else the
-- first ended record, if its metadata match, and nothing otherwise.
pub list_sessions-Sorted :
    (ranged : List Info → List Info) (running ended : List Info) (filters : List (Bytes × Bytes))
    → ((m : List Info) → Reordered m (ranged m))
    → Sorted (list_sessions ranged running ended filters)
      × ((id : Bytes)
          → found id (list_sessions ranged running ended filters)
            ≡ if_matching filters (or_else (latest id running) (found id ended)))
unfolding list_sessions filter_sessions
list_sessions-Sorted ranged running ended filters any =
    let m = by_id running ended in
    let (d, same) = Keeps-Reordered (any m) (Distinct-by_id running ended) in
    let kept = Distinct-keep_matching filters (ranged m) d in
    (
      Sorted-sort (keep_matching filters (ranged m)) kept,
      λ id.
          found-sort id (keep_matching filters (ranged m)) kept
          ∙ found-keep_matching filters id (ranged m) d
          ∙ ap (if_matching filters) (same id ∙ found-by_id id running ended),
    )
