-- ===== src/Retention/Apply/Deleted.antt =====
-- What `ApplyRetentionAt` deletes and what it never deletes, for every order that `sort.Slice` may
-- give to backups with one time stamp.
use db_backup.Base.{
  ℕ, ◌+◌, ◌≤◌, ◌<◌, ◌≡◌, Bool, true, false, List, some, Bytes, bytes_eq, arith, pos, pos_part, take,
  length, All, All-intro, All_get, ◌⊎◌, In, any_of_intro, bytes_eq_refl,
}
use db_backup.Clock.{Time, is_zero}
use db_backup.SortSlice.{SortSlice, take_before, In-take}
use db_backup.Retention.Policy.{BackupEntry, RetentionPolicy, is_positive}
use db_backup.Retention.Chain.Closure.{Needed}
use db_backup.Retention.Tiers.Scan.{Build}
use db_backup.Retention.Apply.Defs.{
  newest_first, newest_first-IsStrictWeak, effective_now, apply_retention_at,
}
use db_backup.Retention.Apply.Kept.{named, rule_last}
use db_backup.Retention.Apply.Fate.{
  HasUniqueNames, Needed-transfer, outside_window, not_named, apply_retention_at-Fate, sorted-In,
  In-sorted,
}

module _ (sorter : SortSlice) (build : Build) (allowed : Bool) (clock : Time)
    (bs : List BackupEntry) (p : RetentionPolicy) (now : Time) (out : List Bytes)
    (done : apply_retention_at sorter build allowed clock bs p now ≡ some out) where
  -- In a listing with unique names, no file is deleted that a chain of bases reaches from an
  -- incremental or differential backup.
  pub apply_retention_at-keeps_Needed : HasUniqueNames bs → (k : Bytes) → Needed bs k → ¬ In k out
  apply_retention_at-keeps_Needed u k need i =
      let fate = apply_retention_at-Fate sorter build allowed clock bs p now out done k i in
      fate.not_needed (
        Needed-transfer bs _ u (In-sorted sorter build allowed clock bs p now)
          (sorted-In sorter build allowed clock bs p now) k need)

  -- What is deleted is a file of the listing, out of the window where there is one.
  pub apply_retention_at-entry :
      (k : Bytes)
      → In k out
      → (b : BackupEntry) × In b bs
        × (b.file_name ≡ k)
        × (is_positive p.within ≡ true
            → (is_zero b.timestamp ≡ true)
              ⊎ (b.timestamp.instant + pos_part p.within < (effective_now clock now).instant))
  apply_retention_at-entry k i =
      let fate = apply_retention_at-Fate sorter build allowed clock bs p now out done k i in
      (
        fate.entry,
        fate.listed,
        fate.name,
        outside_window k p (effective_now clock now) _ fate.entry fate.not_within
            (In-sorted sorter build allowed clock bs p now fate.entry fate.listed) fate.name,
      )

  -- With a positive `within`, a deleted file is that of a listed backup without a time stamp or older
  -- than the window.
  pub apply_retention_at-keeps_within :
      is_positive p.within ≡ true
      → (k : Bytes) → In k out
      → (b : BackupEntry) × In b bs
        × (b.file_name ≡ k)
        × ((is_zero b.timestamp ≡ true)
            ⊎ (b.timestamp.instant + pos_part p.within < (effective_now clock now).instant))
  apply_retention_at-keeps_within w k i =
      let (b, listed, name, out_of_it) = apply_retention_at-entry k i in
      (b, listed, name, out_of_it w)

  -- With `last` set to `n`, behind each deleted file stands a backup of the listing with `n` others
  -- that are not deleted and not older.
  pub apply_retention_at-keeps_last :
      (n : ℕ)
      → p.last ≡ pos n
      → (k : Bytes) → In k out
      → (b : BackupEntry) × (newest : List BackupEntry) × In b bs
        × (b.file_name ≡ k)
        × (length newest ≡ n)
        × All
            (λ c. In c bs × (In c.file_name out → ⊥) × (b.timestamp.instant ≤ c.timestamp.instant))
            newest
  apply_retention_at-keeps_last n e k i =
      let fate = apply_retention_at-Fate sorter build allowed clock bs p now out done k i in
      let sorted = sorter.sort BackupEntry newest_first bs in
      let absent : named k (take n sorted) ≡ false = first_n k fate.not_last in
      let (len, older) =
        take_before newest_first n sorted fate.entry
          (sorter.ordered BackupEntry newest_first bs newest_first-IsStrictWeak)
          (In-sorted sorter build allowed clock bs p now fate.entry fate.listed)
          (λ j. not_named k (take n sorted) fate.entry absent j fate.name) in
      (
        fate.entry,
        take n sorted,
        fate.listed,
        fate.name,
        len,
        All-intro _ (take n sorted) (λ c j. (
          sorted-In sorter build allowed clock bs p now c (In-take n sorted c j),
          λ d. cc (
            any_of_intro (λ x. bytes_eq c.file_name x.file_name) (take n sorted) c j
                (bytes_eq_refl c.file_name),
            first_n c.file_name
                (apply_retention_at-Fate sorter build allowed clock bs p now out done c.file_name
                  d).not_last,
          ),
          not_after fate.entry c (All_get _ (take n sorted) older j),
        )),
      )
    where
      first_n :
          (j : Bytes)
          → rule_last p (sorter.sort BackupEntry newest_first bs) j ≡ false
          → named j (take n (sorter.sort BackupEntry newest_first bs)) ≡ false
      first_n j h = rw e at h

      not_after :
          (b c : BackupEntry) → newest_first b c ≡ false → b.timestamp.instant ≤ c.timestamp.instant
      not_after b c h = ground arith
