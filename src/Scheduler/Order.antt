-- ===== src/Scheduler/Order.antt =====
-- The order of a job's steps, and the exit code of a run over all jobs.
use db_backup.Base.{
  ℕ, ◌+◌, ◌<◌, ◌≡◌, ◌↔◌, refl, ap, ◌∙◌, Bool, true, false, not, ◌&&◌, ◌||◌, List, [], ◌∷◌, ◌++◌, In,
  inl, inr, any_of, arith, if◌then◌else◌, Bool-cases, Bytes, map, In-append_cases,
}
use db_backup.Clock.{Time}
use db_backup.Retention.Tiers.Scan.{Build}
use db_backup.Schedule.Data.{Gate, run_now, not_scheduled_for_today, blackout_window, slot_gate}
use db_backup.Scheduler.Job.{
  JobConfig, Step, acquire, cancelled, backup, maintain, archive, prune, prune_archive, release,
  Outcome, post_backup, work, run_once_job, run_jobs, run_once,
}

-- A step that removes or moves backups.
abbrev pub is_removal : Step → Bool
is_removal archive = true
is_removal prune = true
is_removal prune_archive = true
is_removal _ = false

no_removal : (s t : Step) → is_removal s ≡ true → is_removal t ≡ false → In s (t ∷ []) → ⊥
no_removal s t r n (inl e) = let same : is_removal s ≡ is_removal t = ap is_removal e in cc
no_removal s t r n (inr i) = elim i [ ]

-- A job that comes to a removal has made a backup first, and it succeeded.
work-removal :
    (job : JobConfig) (o : Outcome) (s : Step)
    → is_removal s ≡ true
    → In s (work job o).0
    → (o.backup_ok ≡ true) × (rest : List Step) × (work job o ≡ (backup ∷ rest, false))
unfolding work
work-removal job o s r i = elim (Bool-cases (not job.has_backup && job.has_maintenance)) [
  | inl upkeep ↦ absurd (no_removal s maintain r refl (rw (upkeep, work) at i))
  | inr main ↦ elim (Bool-cases o.backup_ok) [
    | inr bad ↦ absurd (no_removal s backup r refl (rw (main, bad, work) at i))
    | inl good ↦ elim (Bool-cases (job.has_maintenance && o.due)) [
      | inl due ↦ (good, maintain ∷ post_backup job, rw (main, good, due, work))
      | inr idle ↦ (good, post_backup job, rw (main, good, idle, work))
    ]
  ]
]

within_slot :
    (steps : List Step) (s : Step)
    → is_removal s ≡ true
    → In s (acquire ∷ steps ++ release ∷ [])
    → In s steps
within_slot steps s r (inl e) = absurd (no_removal s acquire r refl (inl e))
within_slot steps s r (inr i) = elim (In-append_cases s steps (release ∷ []) i) [
  | inl j ↦ j
  | inr last ↦ absurd (no_removal s release r refl last)
]

slot_granted :
    (job : JobConfig) (o : Outcome) (w v : List Step × Bool)
    → work job o ≡ w
    → o.granted ≡ true
    → w ≡ v
    → run_once_job true job o ≡ (acquire ∷ v.0 ++ release ∷ [], v.1)
unfolding run_once_job
slot_granted job o w v e granted f =
    rw (granted, run_once_job)
      (ap (λ (x : List Step × Bool). (acquire ∷ x.0 ++ release ∷ [], x.1)) (e ∙ f))

-- The steps behind the backup, with the slot given back at the end.
abbrev pub after_backup : Bool → List Step → List Step
after_backup limited rest =
    if limited then acquire ∷ backup ∷ rest ++ release ∷ [] else backup ∷ rest

-- Nothing is archived or pruned but behind a backup of the same run that succeeded: where a job comes
-- to such a step, its backup gave no error and was its first step behind the slot, the slot is given
-- back at the end, and the job counts as not failed.
pub run_once_job-removal :
    (limited : Bool) (job : JobConfig) (o : Outcome) (s : Step)
    → is_removal s ≡ true
    → In s (run_once_job limited job o).0
    → (o.backup_ok ≡ true)
      × (rest : List Step) × (run_once_job limited job o ≡ (after_backup limited rest, false))
unfolding run_once_job
run_once_job-removal false job o s r i = work-removal job o s r i
run_once_job-removal true job o s r i = elim (Bool-cases o.granted) [
  | inr ended ↦ absurd (no_removal s cancelled r refl (rw (ended, run_once_job) at i))
  | inl granted ↦
      let (good, rest, e) =
        work-removal job o s r (within_slot (work job o).0 s r (rw (granted, run_once_job) at i)) in
      (good, rest, slot_granted job o (work job o) (backup ∷ rest, false) refl granted e)
]

-- Whether a job is run and fails.
unfoldable pub job_failed : Build → Bool → JobConfig × Time × Outcome → Bool
job_failed build limited (job, now, o) = elim (slot_gate build job.schedule now) [
  | run_now ↦ (run_once_job limited job o).1
  | not_scheduled_for_today ↦ false
  | blackout_window ↦ false
]

-- The steps of a job in a run, with its name.
unfoldable pub steps_of : Build → Bool → JobConfig × Time × Outcome → List (Bytes × Step)
steps_of build limited (job, now, o) = elim (slot_gate build job.schedule now) [
  | run_now ↦ map (λ s. (job.name, s)) (run_once_job limited job o).0
  | not_scheduled_for_today ↦ []
  | blackout_window ↦ []
]

abbrev pub all_steps : Build → Bool → List (JobConfig × Time × Outcome) → List (Bytes × Step)
all_steps build limited [] = []
all_steps build limited (x ∷ jobs) = steps_of build limited x ++ all_steps build limited jobs

steps-cons :
    (build : Build) (limited : Bool) (x : JobConfig × Time × Outcome)
    (rest : List (JobConfig × Time × Outcome))
    → (run_jobs build limited (x ∷ rest)).0
      ≡ steps_of build limited x ++ (run_jobs build limited rest).0
unfolding run_jobs steps_of
steps-cons build limited (job, now, o) rest = by_gate (slot_gate build job.schedule now) refl
  where
    by_gate :
        (g : Gate)
        → slot_gate build job.schedule now ≡ g
        → (run_jobs build limited ((job, now, o) ∷ rest)).0
          ≡ steps_of build limited (job, now, o) ++ (run_jobs build limited rest).0
    by_gate run_now e = rw (e, run_jobs, steps_of)
    by_gate not_scheduled_for_today e = rw (e, run_jobs, steps_of)
    by_gate blackout_window e = rw (e, run_jobs, steps_of)

run_jobs-steps :
    (build : Build) (limited : Bool) (jobs : List (JobConfig × Time × Outcome))
    → (run_jobs build limited jobs).0 ≡ all_steps build limited jobs
unfolding run_jobs
run_jobs-steps build limited [] = refl
run_jobs-steps build limited (x ∷ rest) =
    steps-cons build limited x rest
    ∙ ap (λ later. steps_of build limited x ++ later) (run_jobs-steps build limited rest)

failures-cons :
    (build : Build) (limited : Bool) (x : JobConfig × Time × Outcome)
    (rest : List (JobConfig × Time × Outcome))
    → (run_jobs build limited (x ∷ rest)).1 ≡ (
        if job_failed build limited x
        then (run_jobs build limited rest).1 + 1
        else (run_jobs build limited rest).1)
unfolding run_jobs job_failed
failures-cons build limited (job, now, o) rest = by_gate (slot_gate build job.schedule now) refl
  where
    by_gate :
        (g : Gate)
        → slot_gate build job.schedule now ≡ g
        → (run_jobs build limited ((job, now, o) ∷ rest)).1 ≡ (
            if job_failed build limited (job, now, o)
            then (run_jobs build limited rest).1 + 1
            else (run_jobs build limited rest).1)
    by_gate run_now e = rw (e, run_jobs, job_failed)
    by_gate not_scheduled_for_today e = rw (e, run_jobs, job_failed)
    by_gate blackout_window e = rw (e, run_jobs, job_failed)

count_failures :
    (build : Build) (limited : Bool) (jobs : List (JobConfig × Time × Outcome))
    → (any_of (job_failed build limited) jobs ≡ true) ↔ (0 < (run_jobs build limited jobs).1)
unfolding run_jobs
count_failures build limited [] = (λ h. cc, λ h. elim h [ ])
count_failures build limited (x ∷ rest) =
    let later = count_failures build limited rest in
    let value = failures-cons build limited x rest in
    split (job_failed build limited x) (any_of (job_failed build limited) rest) _ _ value later
  where
    split :
        (b c : Bool) (n m : ℕ)
        → m ≡ (if b then n + 1 else n)
        → (c ≡ true) ↔ (0 < n)
        → ((b || c) ≡ true) ↔ (0 < m)
    split true c n m e h = (λ t. omega (arith, e), λ t. refl)
    split false c n m e h = (λ t. rw e (h.0 t), λ t. h.1 (rw e at t))

-- A run over all jobs takes the steps of each job that its schedule lets run, one job after the other
-- in their order, whether jobs in front of it have failed or not. It ends with exit code 1 exactly if
-- a job that its schedule lets run fails, and with 0 otherwise.
pub run_once-exit_code :
    (build : Build) (limited : Bool) (jobs : List (JobConfig × Time × Outcome))
    → ((run_once build limited jobs).0 ≡ all_steps build limited jobs)
      × ((run_once build limited jobs).1
          ≡ (if any_of (job_failed build limited) jobs then 1 else 0))
unfolding run_once
run_once-exit_code build limited jobs =
    (run_jobs-steps build limited jobs, ground (arith, count_failures build limited jobs))
