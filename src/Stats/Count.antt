-- ===== src/Stats/Count.antt =====
-- A snapshot counts each run of the last 24 hours once.
use db_backup.Base.{
  ℕ, ◌+◌, ◌≡◌, refl, sym, ap, ◌∙◌, Bool, true, false, not, ◌&&◌, ◌||◌, List, [], ◌∷◌, Bytes,
  bytes_eq, bytes_eq_sound, ltb, if◌then◌else◌, arith, Bool-cases, inl, inr, codes,
}
use db_backup.SortSlice.{SortSlice}
use db_backup.Stats.Tracker.{
  alter, same_hour, entries, counts_or_none, Buckets, Ops, Tracker, add_run, mark, JobOutcome,
  Counts, is_old, sum_counts, sum_ops, set_activity, outcome_of, run_outcomes, activity_outcomes,
  snapshot,
}

-- The successes of an outcome, or its failures.
abbrev of_outcome : Bool → JobOutcome → ℕ
of_outcome end o = if end then o.success else o.failed

abbrev of_counts : Bool → Counts → ℕ
of_counts end c = if end then c.success else c.failed

-- The successes, or the failures, that the outcomes of a type report.
unfoldable pub reported : Bool → Bytes → List JobOutcome → ℕ
reported end ty [] = 0
reported end ty (o ∷ out) =
    (if bytes_eq o.type ty then of_outcome end o else 0) + reported end ty out

-- Those in the buckets of a type.
unfoldable tally : Bool → ℕ → Bytes → List (Bytes × Buckets) → ℕ
unfolding sum_counts
tally end now ty [] = 0
tally end now ty ((k, b) ∷ m) =
    (if bytes_eq k ty then of_counts end (sum_counts now b) else 0) + tally end now ty m

abbrev fresh : Bool → ℕ → Bool → ℕ → ℕ
fresh end now ok hour = if (if end then ok else not ok) && not (is_old now hour) then 1 else 0

-- What a run adds to the successes, or to the failures, of a type.
abbrev pub counted : Bool → ℕ → Bytes → Bytes → Bool → ℕ → ℕ
counted end now ty db_type ok hour =
    if bytes_eq db_type ty && (if end then ok else not ok) && not (is_old now hour) then 1 else 0

sum_counts-alter :
    (end : Bool) (now hour : ℕ) (ok : Bool) (d b r : ℕ) (m : Buckets)
    → of_counts end
        (sum_counts now (alter same_hour hour (λ c. add_run ok d b r (counts_or_none c)) m))
      ≡ of_counts end (sum_counts now m) + fresh end now ok hour
unfolding sum_counts alter add_run
sum_counts-alter true now hour ok d b r [] = ground arith
sum_counts-alter true now hour ok d b r ((h, c) ∷ m) =
    ground (arith, sum_counts-alter true now hour ok d b r m)
sum_counts-alter false now hour ok d b r [] = ground arith
sum_counts-alter false now hour ok d b r ((h, c) ∷ m) =
    ground (arith, sum_counts-alter false now hour ok d b r m)

no_end : (end : Bool) (n : ℕ) → n ≡ 0 → (if end then n else n) ≡ 0
no_end true n e = e
no_end false n e = e

reported-set_activity :
    (end : Bool) (ty : Bytes) (o : JobOutcome) (out : List JobOutcome)
    → of_outcome end o ≡ 0
    → reported end ty (set_activity o out) ≡ reported end ty out
unfolding reported set_activity
reported-set_activity end ty o [] z = ground arith
reported-set_activity end ty o (p ∷ out) z = elim (Bool-cases (bytes_eq p.type o.type)) [
  | inl here ↦ rw (here, set_activity)
  | inr there ↦
      rw (there, set_activity)
        (ap (λ n. (if bytes_eq p.type ty then of_outcome end p else 0) + n)
          (reported-set_activity end ty o out z))
]

reported-activity_outcomes :
    (end : Bool) (sorter : SortSlice) (now : ℕ) (ty : Bytes) (m : List (Bytes × List (ℕ × Ops)))
    (out : List JobOutcome)
    → reported end ty (activity_outcomes sorter now m out) ≡ reported end ty out
unfolding activity_outcomes
reported-activity_outcomes end sorter now ty [] out = refl
reported-activity_outcomes end sorter now ty ((k, hours) ∷ m) out =
    elim (Bool-cases
      (ltb 0 (sum_ops now (codes "prune") hours) || ltb 0 (sum_ops now (codes "archive") hours))) [
        | inl active ↦
            rw (active, activity_outcomes)
              (reported-activity_outcomes end sorter now ty m _
                ∙ reported-set_activity end ty _ out (no_end end 0 refl))
        | inr idle ↦
            rw (idle, activity_outcomes) (reported-activity_outcomes end sorter now ty m out)
      ]

reported-run_outcomes :
    (end : Bool) (sorter : SortSlice) (now : ℕ) (ty : Bytes) (t : Tracker)
    (m : List (Bytes × Buckets))
    → reported end ty (run_outcomes sorter now t m) ≡ tally end now ty m
unfolding run_outcomes outcome_of reported tally
reported-run_outcomes end sorter now ty t [] = refl
reported-run_outcomes end sorter now ty t ((k, b) ∷ m) =
    elim (Bool-cases (ltb 0 (sum_counts now b).success || ltb 0 (sum_counts now b).failed)) [
      | inl active ↦
          rw (active, run_outcomes)
            (ap (λ n. (if bytes_eq k ty then of_counts end (sum_counts now b) else 0) + n)
              (reported-run_outcomes end sorter now ty t m))
      | inr idle ↦
          rw (idle, run_outcomes) (ground (arith, reported-run_outcomes end sorter now ty t m))
    ]

tally-alter :
    (end : Bool) (now hour : ℕ) (ty db_type : Bytes) (ok : Bool) (d b r : ℕ)
    (m : List (Bytes × Buckets))
    → tally end now ty (
        alter bytes_eq db_type
          (λ buckets.
            alter same_hour hour (λ c. add_run ok d b r (counts_or_none c)) (entries buckets))
          m)
      ≡ tally end now ty m + counted end now ty db_type ok hour
unfolding tally alter
tally-alter end now hour ty db_type ok d b r [] =
    ground (arith, sum_counts-alter end now hour ok d b r [])
tally-alter end now hour ty db_type ok d b r ((k, buckets) ∷ m) =
    elim (Bool-cases (bytes_eq k db_type)) [
      | inl here ↦
          let same : k ≡ db_type = bytes_eq_sound k db_type here in
          rw (here, alter)
            (rw (← same) (ground (arith, sum_counts-alter end now hour ok d b r buckets)))
      | inr there ↦
          rw (there, alter) (ground (arith, tally-alter end now hour ty db_type ok d b r m))
    ]

-- A run that is marked in some hour raises by one the successes (where `end` is true) or the failures
-- (where it is false) that a snapshot reports for a type, if it is a run of that type that ended so
-- and is no more than 24 hours old, and else leaves them as they are, whatever activity the tracker
-- holds.
pub mark-counted :
    (end : Bool) (sorter : SortSlice) (now hour : ℕ) (ty db_type : Bytes) (ok : Bool)
    (duration bytes raw_bytes : ℕ) (t : Tracker)
    → reported end ty (snapshot sorter now (mark db_type ok duration bytes raw_bytes hour t)).0
      ≡ reported end ty (snapshot sorter now t).0 + counted end now ty db_type ok hour
unfolding snapshot mark
mark-counted end sorter now hour ty db_type ok d b r t =
    let value : (u : Tracker)
        → reported end ty (snapshot sorter now u).0 ≡ tally end now ty u.by_ts =
      λ u.
        reported-activity_outcomes end sorter now ty u.activity _
        ∙ reported-run_outcomes end sorter now ty u u.by_ts in
    value (mark db_type ok d b r hour t)
    ∙ (tally-alter end now hour ty db_type ok d b r t.by_ts
        ∙ ap (λ n. n + counted end now ty db_type ok hour) (sym (value t)))
