-- ===== src/Cron/Next.antt =====
-- `nextCronAt` of src/internal/scheduler/cron.go. The loop makes at most 525600 rounds, one for each
-- minute of a year of 365 days, and gives 0 where none of them matches.
use db_backup.Base.{ℕ, zero, suc, ◌+◌, ◌-◌, true, false, Option, none, some, Bytes}
use db_backup.Clock.{Time, minute, truncate}
use db_backup.Cron.Field.{cron_match}

unfoldable pub next_minute : Time → Time
unfolding truncate
next_minute now = truncate minute (record now { instant = now.instant + minute })

unfoldable pub cron_scan : ℕ → Bytes → Time → Option Time
cron_scan zero expr next = none
cron_scan (suc rounds) expr next = elim (cron_match expr next) [
  | true ↦ some next
  | false ↦ cron_scan rounds expr (record next { instant = next.instant + minute })
]

unfoldable pub wait_until : Time → Option Time → ℕ
wait_until now none = 0
wait_until now (some next) = next.instant - now.instant

unfoldable pub next_cron_at : Bytes → Time → ℕ
unfolding cron_scan next_minute wait_until
next_cron_at expr now = wait_until now (cron_scan 525600 expr (next_minute now))
