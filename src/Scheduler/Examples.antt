-- ===== src/Scheduler/Examples.antt =====
-- Concrete jobs and a concrete pool of goroutines.
use db_backup.Base.{
  ◌⊎◌, ◌<◌, ◌+◌, ◌≤◌, ◌≡◌, refl, true, false, List, [], ◌∷◌, none, codes, any_of, inl, inr, pos,
  if◌then◌else◌, arith,
}
use db_backup.Clock.{Time}
use db_backup.Retention.Tiers.Scan.{community}
use db_backup.Scheduler.Job.{JobConfig, Step, prune, Outcome, run_once_job, run_once}
use db_backup.Scheduler.Order.{
  after_backup, job_failed, all_steps, run_once_job-removal, run_once-exit_code,
}
use db_backup.Scheduler.Progress.{Steps, RunsAt, reached-progress}
use db_backup.Scheduler.Slots.{
  outside, running, waiting, Pool, Reached, Next, Move, tokens, all_outside, reached_lem,
}

abbrev nightly : JobConfig
nightly = record {
  name = codes "nightly";
  schedule = none;
  has_backup = true;
  has_maintenance = false;
  archive = none;
  has_retention = true;
}

abbrev fine : Outcome
fine = record { granted = true; backup_ok = true; maintain_ok = true; due = true }

abbrev broken : Outcome
broken = record { granted = true; backup_ok = false; maintain_ok = true; due = true }

run_once_job-removal_example :
    (true ≡ true)
    × (rest : List Step) × (run_once_job true nightly fine ≡ (after_backup true rest, false))
unfolding run_once_job
run_once_job-removal_example =
    run_once_job-removal true nightly fine prune refl (inr (inr (inl refl)))

abbrev midnight : Time
midnight = record { instant = 0; zone = pos 0 }

run_once-exit_code_example :
    ((run_once community true ((nightly, midnight, broken) ∷ (nightly, midnight, fine) ∷ [])).0
      ≡ all_steps community true ((nightly, midnight, broken) ∷ (nightly, midnight, fine) ∷ []))
    × ((run_once community true ((nightly, midnight, broken) ∷ (nightly, midnight, fine) ∷ [])).1
        ≡ (if any_of
              (job_failed community true)
              ((nightly, midnight, broken) ∷ (nightly, midnight, fine) ∷ [])
            then 1
            else 0))
run_once-exit_code_example =
    run_once-exit_code community true ((nightly, midnight, broken) ∷ (nightly, midnight, fine) ∷ [])

-- One slot, and two jobs that want it.
abbrev one_runs : Pool
one_runs = record { channel = 1; jobs = running ∷ outside ∷ [] }

abbrev one_waits : Pool
one_waits = record { channel = 1; jobs = running ∷ waiting ∷ [] }

reach_one_runs : Reached 1 one_runs
unfolding all_outside
reach_one_runs =
    Reached.step (record { channel = 0; jobs = outside ∷ outside ∷ [] }) one_runs
      (Reached.start (outside ∷ outside ∷ []) refl)
      (Next.moves 0 1 [] (outside ∷ []) outside running (Move.enter 0 (omega arith)))

reach_one_waits : Reached 1 one_waits
reach_one_waits =
    Reached.step one_runs one_waits reach_one_runs
      (Next.moves 1 1 (running ∷ []) [] outside waiting (Move.queue 1 (omega arith)))

reached_lem_example : (1 ≡ tokens (running ∷ waiting ∷ [])) × (tokens (running ∷ waiting ∷ []) ≤ 1)
reached_lem_example = reached_lem 1 one_waits reach_one_waits

reached-progress_example :
    ((1 < 1)
      × Next 1
          (record { channel = 1; jobs = running ∷ waiting ∷ [] })
          (record { channel = 2; jobs = running ∷ running ∷ [] }))
    ⊎ ((tokens (running ∷ []) + tokens [] ≡ 1)
        × (t : Pool) × Steps 1 (record { channel = 1; jobs = running ∷ waiting ∷ [] }) t
        × RunsAt 1 t)
reached-progress_example = reached-progress 1 1 (running ∷ []) [] (omega arith) reach_one_waits
