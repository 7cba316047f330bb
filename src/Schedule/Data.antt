-- ===== src/Schedule/Data.antt =====
-- The types of schedule.go with their tests. A pointer to a list of blackouts is the list, since a nil
-- one and an empty one are treated alike; the maps of a day list, to which only `true` is written, are
-- lists of keys. A time of day is the number of its minutes.
use db_backup.Base.{
  ℕ, ◌+◌, ◌*◌, Bool, true, false, not, ◌&&◌, ◌||◌, List, [], ◌∷◌, Option, none, some, Bytes,
  bytes_eq, ◌==◌, ltb, ℤ, pos, if◌then◌else◌, any_of, length, take, drop,
}
use db_backup.Text.{atoi, delete_byte}
use db_backup.Clock.{Time, date_of, weekday_of, hour_of, minute_of}
use db_backup.Retention.Policy.{is_positive}
use db_backup.Retention.Tiers.Scan.{Build, community, supported}

pub record DayList : Type 0 where
  pub weekdays : List ℕ
  pub dom : List ℕ

pub record Blackout : Type 0 where
  pub begin : Bytes
  pub end : Bytes
  pub days : DayList

pub record Schedule : Type 0 where
  pub cron : Bytes
  pub interval : ℤ
  pub begin : Bytes
  pub time : List ℕ
  pub start : Bytes
  pub recurring : Bytes
  pub blackout : List Blackout
  pub days : DayList
  pub exclude_days : DayList

abbrev pub is_empty : {A : Type 0} → List A → Bool
is_empty [] = true
is_empty (x ∷ xs) = false

unfoldable pub no_days : DayList → Bool
no_days d = is_empty d.weekdays && is_empty d.dom

-- `DayList.Matches`
unfoldable pub matches : DayList → Time → Bool
unfolding no_days
matches d t =
    if no_days d
    then true
    else any_of (λ w. w == weekday_of t) d.weekdays || any_of (λ n. n == (date_of t).day) d.dom

-- `SupporterDayAllowed`
unfoldable pub day_allowed : Build → Schedule → Time → Bool
unfolding matches
day_allowed community s t = true
day_allowed supported s t =
    if not (no_days s.days) && not (matches s.days t)
    then false
    else if not (no_days s.exclude_days) && matches s.exclude_days t
    then false
    else true

-- `SupporterBlackoutDaySkip`
unfoldable pub blackout_day_skip : Build → Blackout → Time → Bool
unfolding matches
blackout_day_skip community b t = false
blackout_day_skip supported b t = not (no_days b.days) && not (matches b.days t)

-- The minutes of an hour and a minute in range.
abbrev pub clock : ℤ → ℤ → Option ℕ
clock (pos h) (pos m) = if ltb 23 h || ltb 59 m then none else some (h * 60 + m)
clock h m = none

unfoldable pub parse_hhmm : Bytes → Option ℕ
unfolding delete_byte
parse_hhmm text =
    let s = delete_byte b':' text in
    if not (length s == 4) then none else elim (atoi (take 2 s)) [
      | none ↦ none
      | some h ↦ elim (atoi (drop 2 s)) [ none ↦ none | some m ↦ clock h m ]
    ]

abbrev pub minute_of_day : Time → ℕ
minute_of_day t = hour_of t * 60 + minute_of t

-- The comparison at the end of `Contains`.
unfoldable pub in_window : ℕ → ℕ → ℕ → Bool
in_window start finish now =
    if ltb finish start
    then ltb start now || ltb now finish
    else if finish == start
    then false
    else ltb start now && ltb now finish

unfoldable pub contains : Build → Blackout → Time → Bool
unfolding parse_hhmm blackout_day_skip in_window
contains build b t =
    if bytes_eq b.begin [] || bytes_eq b.end [] then false else elim (parse_hhmm b.begin) [
      | none ↦ false
      | some start ↦ elim (parse_hhmm b.end) [
        | none ↦ false
        | some finish ↦
            if blackout_day_skip build b t then false else in_window start finish (minute_of_day t)
      ]
    ]

unfoldable pub blocked : Build → Option Schedule → Time → Bool
unfolding contains
blocked build none t = false
blocked build (some s) t = any_of (λ b. contains build b t) s.blackout

-- `IsRecurring`
unfoldable pub is_recurring : Option Schedule → Bool
is_recurring none = false
is_recurring (some s) =
    if not (bytes_eq s.recurring [])
    then true
    else not (bytes_eq s.cron []) || is_positive s.interval || not (is_empty s.time)

-- What `slotGate` says: its reasons to skip a job, or none.
pub data Gate : Type 0 where
  run_now not_scheduled_for_today blackout_window : Gate

unfoldable pub slot_gate : Build → Option Schedule → Time → Gate
unfolding day_allowed blocked
slot_gate build none now = run_now
slot_gate build (some s) now =
    if not (day_allowed build s now)
    then not_scheduled_for_today
    else if blocked build (some s) now
    then blackout_window
    else run_now
