-- ===== src/Schedule/Examples.antt =====
-- Concrete schedules.
use db_backup.Base.{
  ℕ, ◌+◌, ◌*◌, ◌≤◌, ◌<◌, ◌≡◌, ◌↔◌, ◌⊎◌, refl, true, [], ◌∷◌, some, In, arith, codes, pos,
}
use db_backup.Text.{atoi, delete_byte}
use db_backup.Clock.{Time, minute, hour}
use db_backup.Retention.Tiers.Scan.{community}
use db_backup.Schedule.Data.{Blackout, parse_hhmm, minute_of_day, contains, blackout_day_skip}
use db_backup.Schedule.Blackout.{minutes_from, contains_circle}
use db_backup.Schedule.Grid.{next_anchored_duration, next_time}
use db_backup.Schedule.Wait.{IsFirstPoint, next_anchored_duration_first}
use db_backup.Schedule.Times.{day_minute, next_time_ahead}

-- Noon of the third day.
abbrev noon : Time
noon = record { instant = 216_000_000_000_000; zone = pos 0 }

abbrev night : Blackout
night = record {
  begin = codes "22:00";
  end = codes "0600";
  days = record { weekdays = []; dom = [] };
}

contains_circle_example : (contains community night noon ≡ true) ↔ (
    (0 < minutes_from 1320 (minute_of_day noon))
    × (minutes_from 1320 (minute_of_day noon) < minutes_from 1320 360))
unfolding parse_hhmm blackout_day_skip atoi delete_byte
contains_circle_example = contains_circle community night noon 1320 360 refl refl refl

next_anchored_duration_first_example :
    (d : ℕ) × (next_anchored_duration day_minute (30 ∷ 615 ∷ []) (pos 90) noon ≡ some (pos d))
    × IsFirstPoint day_minute (90 * minute) noon (30 ∷ 615 ∷ []) d
next_anchored_duration_first_example =
    next_anchored_duration_first day_minute 30 (615 ∷ []) 90 noon (omega arith) (omega arith)

next_time_ahead_example :
    (next : Time) × (n : ℕ) × (next_time day_minute (30 ∷ 615 ∷ []) noon ≡ some next)
    × In n (30 ∷ 615 ∷ [])
    × ((next.instant ≡ day_minute noon n) ⊎ (next.instant ≡ day_minute noon n + 24 * hour))
    × (216_000_000_000_000 < next.instant)
    × (next.instant ≤ 216_000_000_000_000 + 24 * hour)
next_time_ahead_example =
    next_time_ahead day_minute 30 (615 ∷ []) noon (λ n h. refl)
      (omega arith, omega arith, omega arith) (omega arith, (omega arith, tt))
