-- ===== src/Schedule/Grid.antt =====
-- `nextAnchoredDuration` of src/internal/scheduler/cron.go and the waits between runs, and `TimeList.Next`
-- of src/internal/config/schedule.go. Durations are nanoseconds in 64 bits, and the product of an interval
-- and a minute wraps. `date_at` stands for `time.Date` at a minute of the local day of a time, in the
-- time's location: the rules of a zone, daylight saving among them, are Go's.
-- `fmt.Sscanf` is an argument: `scan_plus` gives the number behind a plus sign, or 0, and `scan_hhmm`
-- the two numbers of an HHMM text, which are not negative in a text that was validated.
use db_backup.Base.{
  wrap64, sub64, rem_ℤ, sub_ℕ, ltb_ℤ, eqb_ℤ, ◌+ℤ◌, pos, ℕ, ◌+◌, ◌*◌, not, ◌||◌, List, [], ◌∷◌,
  Option, none, some, Bytes, codes, bytes_eq, ◌==◌, ltb, ℤ, pos_part, if◌then◌else◌, length,
}
use db_backup.Text.{has_prefix}
use db_backup.Clock.{Time, minute, hour}
use db_backup.Retention.Policy.{is_positive}
use db_backup.Cron.Next.{next_cron_at}
use db_backup.Schedule.Data.{Schedule, is_empty, minute_of_day}

-- `time.Duration(n) * time.Minute`
unfoldable pub minutes_duration : ℤ → ℤ
unfolding wrap64
minutes_duration n = wrap64 (pos (pos_part n * minute))

-- The remainder of `now.Sub(epoch)`, made non-negative: Go's `%` has the sign of the dividend.
unfoldable pub grid_rem : ℤ → ℕ → ℕ → ℤ
unfolding rem_ℤ wrap64 ◌+ℤ◌
grid_rem step now epoch =
    let r = rem_ℤ (sub_ℕ now epoch) step in if ltb_ℤ r (pos 0) then wrap64 (r +ℤ step) else r

-- The wait for the next point of the grid of one anchor.
unfoldable pub anchor_wait : ℤ → ℕ → ℕ → ℤ
unfolding grid_rem sub64
anchor_wait step now epoch =
    let r = grid_rem step now epoch in if eqb_ℤ r (pos 0) then step else sub64 step r

module _ (date_at : Time → ℕ → ℕ) where
  unfoldable pub anchored_scan : ℤ → Time → List ℕ → ℤ → ℤ
  unfolding anchor_wait
  anchored_scan step now [] best = best
  anchored_scan step now (a ∷ anchors) best =
      let d = anchor_wait step now.instant (date_at now a) in
      anchored_scan step now anchors (if eqb_ℤ best (pos 0) || ltb_ℤ d best then d else best)

  -- None where a step that has wrapped to 0 makes the division panic.
  unfoldable pub next_anchored_duration : List ℕ → ℤ → Time → Option ℤ
  unfolding anchored_scan minutes_duration
  next_anchored_duration anchors interval now =
      if is_empty anchors || not (is_positive interval)
      then some (pos 0)
      else if eqb_ℤ (minutes_duration interval) (pos 0)
      then none
      else some (anchored_scan (minutes_duration interval) now anchors (pos 0))

-- The loop of `TimeList.Next`.
unfoldable pub later_today : ℕ → List ℕ → Option ℕ
later_today cur [] = none
later_today cur (m ∷ ms) = let rest = later_today cur ms in if ltb cur m then some m else rest

module _ (date_at : Time → ℕ → ℕ) where
  -- `TimeList.Next`
  unfoldable pub next_time : List ℕ → Time → Option Time
  unfolding later_today
  next_time [] now = none
  next_time (m ∷ ms) now = elim (later_today (minute_of_day now) (m ∷ ms)) [
    | some n ↦ some (record now { instant = date_at now n })
    | none ↦ some (record now { instant = date_at now m + 24 * hour })
  ]

  module _ (scan_plus : Bytes → ℤ) (scan_hhmm : Bytes → ℕ × ℕ) where
    unfoldable pub parse_begin_at : Bytes → Time → ℤ
    unfolding minutes_duration
    parse_begin_at begin now =
        if has_prefix begin (codes "+")
        then (if is_positive (scan_plus begin) then minutes_duration (scan_plus begin) else pos 0)
        else if length begin == 4
        then (let (h, m) = scan_hhmm begin in
            let target = date_at now (h * 60 + m) in
            if ltb target now.instant
            then sub_ℕ (target + 24 * hour) now.instant
            else sub_ℕ target now.instant)
        else pos 0

    -- None where the anchored wait panics.
    unfoldable pub next_job_duration_at : Option Schedule → Time → Option ℤ
    unfolding next_anchored_duration next_time parse_begin_at
    next_job_duration_at none now = some (pos 0)
    next_job_duration_at (some s) now =
        if not (bytes_eq s.cron [])
        then some (pos (next_cron_at s.cron now))
        else if is_positive s.interval
        then (if not (is_empty s.time)
            then next_anchored_duration date_at s.time s.interval now
            else some (minutes_duration s.interval))
        else if not (bytes_eq s.begin [])
        then some (parse_begin_at s.begin now)
        else elim (next_time s.time now) [
          | none ↦ some (pos 0)
          | some next ↦ some (sub_ℕ next.instant now.instant)
        ]
