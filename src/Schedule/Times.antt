-- ===== src/Schedule/Times.antt =====
-- `TimeList.Next` gives a time of the list in the day ahead.
use db_backup.Base.{
  ℕ, ◌+◌, ◌-◌, ◌*◌, ◌≤◌, ◌<◌, ◌≡◌, refl, List, [], ◌∷◌, none, some, In, inl, inr, arith, ltb,
  Bool-cases, Option-cases, pos_part, neg_part, ◌⊎◌, All, All_get,
}
use db_backup.Clock.{Time, wall, wall_days, hour_of, minute_of, second, minute, hour}
use db_backup.Schedule.Data.{minute_of_day}
use db_backup.Schedule.Grid.{later_today, next_time}

-- Local midnight.
unfoldable pub midnight : Time → ℕ
unfolding wall_days
midnight t = (wall_days t * 86400 + neg_part t.zone - pos_part t.zone) * second

-- The instant of a minute of the local day of a time, if the zone keeps its offset all that day.
unfoldable pub day_minute : Time → ℕ → ℕ
unfolding midnight
day_minute t m = midnight t + m * minute

later_today-In : (cur : ℕ) (ms : List ℕ) (n : ℕ) → later_today cur ms ≡ some n → In n ms × (cur < n)
unfolding later_today
later_today-In cur [] n e = cc
later_today-In cur (m ∷ ms) n e = elim (Bool-cases (ltb cur m)) [
  | inl later ↦
      let e' : some m ≡ some n = rw (later, later_today) at e in
      let same : m ≡ n = cc in (inl (rw same), ground arith)
  | inr not_later ↦
      let (i, low) = later_today-In cur ms n (rw (not_later, later_today) at e) in (inr i, low)
]

first_earlier : (cur m : ℕ) (ms : List ℕ) → later_today cur (m ∷ ms) ≡ none → m ≤ cur
unfolding later_today
first_earlier cur m ms e = ground arith

-- A time past its second day, so that the local midnight before it is a time.
abbrev pub IsAfterStart : Time → Type 0
IsAfterStart t =
    (pos_part t.zone ≤ 86400) × (neg_part t.zone ≤ 86400) × (2 * 86400 * second ≤ t.instant)

-- A time of day later than the clock lies ahead, one that is not lies within the day before.
minute_later :
    (t : Time) (n : ℕ) → IsAfterStart t → minute_of_day t < n → t.instant < day_minute t n
unfolding day_minute midnight hour_of minute_of wall_days wall
minute_later t n (east, west, late) h = omega arith

minute_within :
    (t : Time) (n : ℕ) → IsAfterStart t → n < 1440 → day_minute t n ≤ t.instant + 24 * hour
unfolding day_minute midnight wall_days wall
minute_within t n (east, west, late) h = omega arith

minute_tomorrow :
    (t : Time) (n : ℕ)
    → IsAfterStart t
    → n ≤ minute_of_day t
    → (t.instant < day_minute t n + 24 * hour)
      × (day_minute t n + 24 * hour ≤ t.instant + 24 * hour)
unfolding day_minute midnight hour_of minute_of wall_days wall
minute_tomorrow t n (east, west, late) h = (omega arith, omega arith)

-- On a day on which the location of the clock keeps one offset from UTC, so that each minute of the
-- day has the instant that this offset gives: from a non-empty list of times below 24:00, a time of
-- the list is chosen, at its instant of that day or 24 hours behind it, ahead by no more than 24
-- hours, for every clock past the second day of year 1 whose offset is no more than a day.
pub next_time_ahead :
    (date_at : Time → ℕ → ℕ) (m : ℕ) (ms : List ℕ) (now : Time)
    → ((n : ℕ) → n < 1440 → date_at now n ≡ day_minute now n)
    → IsAfterStart now
    → All (λ n. n < 1440) (m ∷ ms)
    → (next : Time) × (n : ℕ) × (next_time date_at (m ∷ ms) now ≡ some next)
      × In n (m ∷ ms)
      × ((next.instant ≡ date_at now n) ⊎ (next.instant ≡ date_at now n + 24 * hour))
      × (now.instant < next.instant)
      × (next.instant ≤ now.instant + 24 * hour)
unfolding next_time
next_time_ahead date_at m ms now steady start day =
    elim (Option-cases (later_today (minute_of_day now) (m ∷ ms))) [
      | inr (n, e) ↦
          let (i, later) = later_today-In (minute_of_day now) (m ∷ ms) n e in
          (
            record now { instant = date_at now n },
            n,
            rw (e, next_time),
            i,
            inl refl,
            rw (steady n (All_get _ (m ∷ ms) day i)) (minute_later now n start later),
            rw (steady n (All_get _ (m ∷ ms) day i))
                (minute_within now n start (All_get _ (m ∷ ms) day i)),
          )
      | inl passed ↦
          let (ahead, within) =
            minute_tomorrow now m start (first_earlier (minute_of_day now) m ms passed) in
          (
            record now { instant = date_at now m + 24 * hour },
            m,
            rw (passed, next_time),
            inl refl,
            inr refl,
            rw (steady m day.0) ahead,
            rw (steady m day.0) within,
          )
    ]
