-- ===== src/Stats/Examples.antt =====
-- Concrete versions and a concrete tracker.
use db_backup.Base.{◌+◌, ◌≡◌, false, [], codes}
use db_backup.SortSlice.{by_insertion}
use db_backup.Stats.Tracker.{Tracker, mark, snapshot}
use db_backup.Stats.Count.{reported, counted, mark-counted}

abbrev no_runs : Tracker
no_runs = record { by_ts = []; activity = []; servers = [] }

mark-counted_example :
    reported false
      (codes "mysql")
      (snapshot by_insertion 100 (mark (codes "mysql") false 5 2048 4096 90 no_runs)).0
    ≡ reported false (codes "mysql") (snapshot by_insertion 100 no_runs).0
      + counted false 100 (codes "mysql") (codes "mysql") false 90
mark-counted_example =
    mark-counted false by_insertion 100 90 (codes "mysql") (codes "mysql") false 5 2048 4096 no_runs
