-- ===== src/Mounts/Longest.antt =====
-- The mount that snulbug/http_routes.py chooses for a path.
use Prim.Native.String.{count}
use mathlib.Core.List.{Memᴰ}
use snulbug.Base.{◌≤◌, ◌≡◌, String, true, some, List}
use snulbug.Base.Sort.{
  find-Mem, find-greatest, sorted_falling, sorted_falling-IsFalling, sorted_falling-Mem,
  Mem-sorted_falling,
}
use snulbug.Mounts.{Route, path_matches}
use snulbug.Mounts.Serve.{by_length, select}

-- The mount that is chosen is a configured one that matches the path, and no other configured one
-- that matches it has a longer prefix.
pub select-longest :
    (routes : List Route) (path : String) (chosen r : Route)
    → select (by_length routes) path ≡ some chosen
    → Memᴰ r routes
    → path_matches path r.prefix ≡ true
    → Memᴰ chosen routes
      × (path_matches path chosen.prefix ≡ true)
      × (count r.prefix ≤ count chosen.prefix)
unfolding by_length select
select-longest routes path chosen r h m t =
    let key = λ (q : Route). count q.prefix in
    let sorted = sorted_falling key routes in
    let found = find-Mem (λ q. path_matches path q.prefix) sorted h in
    (
      sorted_falling-Mem key routes found.0,
      found.1,
      find-greatest key (λ q. path_matches path q.prefix) sorted
          (sorted_falling-IsFalling key routes) h (Mem-sorted_falling key routes m) t,
    )
