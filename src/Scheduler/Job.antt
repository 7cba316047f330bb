-- ===== src/Scheduler/Job.antt =====
-- `runOnceJob` with `postBackup`, and `RunOnce`. What a job does is the sequence of its steps; what the
-- steps come to is an argument (`Outcome`): each call of a database engine, of the clock and of the
-- context is outside. Log lines and durations are dropped.
use db_backup.Base.{
  ℕ, ◌+◌, Bool, true, false, not, ◌&&◌, ◌||◌, List, [], ◌∷◌, ◌++◌, Option, none, some, Bytes,
  bytes_eq, ℤ, if◌then◌else◌, map, ◌==◌,
}
use db_backup.Clock.{Time}
use db_backup.Retention.Policy.{is_positive}
use db_backup.Retention.Tiers.Scan.{Build}
use db_backup.Schedule.Data.{Schedule, run_now, not_scheduled_for_today, blackout_window, slot_gate}

-- The fields of `config.ArchiveConfig` that `postBackup` tests.
pub record ArchiveConfig : Type 0 where
  pub last : ℤ
  pub within : Bytes
  pub has_retention : Bool

-- The fields of `config.JobConfig` that decide the steps; a pointer that is only tested for nil is a
-- Boolean.
pub record JobConfig : Type 0 where
  pub name : Bytes
  pub schedule : Option Schedule
  pub has_backup : Bool
  pub has_maintenance : Bool
  pub archive : Option ArchiveConfig
  pub has_retention : Bool

pub data Step : Type 0 where
  acquire cancelled backup maintain archive prune prune_archive release : Step

-- Whether a slot was granted before the context ended, whether the runs of the job and of its
-- maintenance gave no error, and `DueOn` at the time of the test.
pub record Outcome : Type 0 where
  pub granted : Bool
  pub backup_ok : Bool
  pub maintain_ok : Bool
  pub due : Bool

unfoldable pub archive_steps : Option ArchiveConfig → List Step
archive_steps none = []
archive_steps (some a) =
    if is_positive a.last || not (bytes_eq a.within []) then archive ∷ [] else []

unfoldable pub archive_prune_steps : Option ArchiveConfig → List Step
archive_prune_steps none = []
archive_prune_steps (some a) = if a.has_retention then prune_archive ∷ [] else []

unfoldable pub post_backup : JobConfig → List Step
unfolding archive_steps archive_prune_steps
post_backup job =
    archive_steps job.archive
    ++ (if job.has_retention then prune ∷ [] else [])
    ++ archive_prune_steps job.archive

-- The steps that the job itself makes, and whether it failed.
unfoldable pub work : JobConfig → Outcome → List Step × Bool
unfolding post_backup
work job o =
    if not job.has_backup && job.has_maintenance
    then (maintain ∷ [], not o.maintain_ok)
    else if not o.backup_ok
    then (backup ∷ [], true)
    else if job.has_maintenance && o.due
    then (backup ∷ maintain ∷ post_backup job, false)
    else (backup ∷ post_backup job, false)

-- `limited` tells whether there are slots.
unfoldable pub run_once_job : Bool → JobConfig → Outcome → List Step × Bool
unfolding work
run_once_job limited job o =
    if not limited
    then work job o
    else if not o.granted
    then (cancelled ∷ [], false)
    else (let (steps, failed) = work job o in (acquire ∷ steps ++ release ∷ [], failed))

module _ (build : Build) (limited : Bool) where
  -- The loop of `RunOnce` over the jobs, each with the time at which its schedule is tested and with
  -- what its steps come to: the steps with the job's name, and how many jobs failed.
  unfoldable pub run_jobs : List (JobConfig × Time × Outcome) → List (Bytes × Step) × ℕ
  unfolding run_once_job slot_gate
  run_jobs [] = ([], 0)
  run_jobs ((job, now, o) ∷ rest) =
      let (later, failures) = run_jobs rest in
      elim (slot_gate build job.schedule now) [
        | run_now ↦
            let (steps, failed) = run_once_job limited job o in
            (map (λ s. (job.name, s)) steps ++ later, if failed then failures + 1 else failures)
        | not_scheduled_for_today ↦ (later, failures)
        | blackout_window ↦ (later, failures)
      ]

  -- `RunOnce`: the steps and the exit code.
  unfoldable pub run_once : List (JobConfig × Time × Outcome) → List (Bytes × Step) × ℕ
  unfolding run_jobs
  run_once jobs = let (steps, failures) = run_jobs jobs in (steps, if failures == 0 then 0 else 1)
