-- ===== src/Retention/Apply/Defs.antt =====
-- The steps of `ApplyRetentionAt` and their composition. Each loop is a function over the backups
-- that are left; log lines are dropped; `time.Now()` is the argument `clock`. `none` is the walk of `chainDependencies`
-- out of fuel, which never happens.
use db_backup.Base.{
  ℕ, ◌+◌, ◌-◌, Bool, List, [], ◌∷◌, Option, none, some, Bytes, mem, leb, if◌then◌else◌, arith, ℤ,
  pos, pos_part, leb_ℤ,
}
use db_backup.Clock.{Time, is_zero, after}
use db_backup.SortSlice.{SortSlice, IsStrictWeak}
use db_backup.Retention.Policy.{
  BackupEntry, RetentionPolicy, is_positive, has_gfs, check_prune, strip_tiers,
}
use db_backup.Retention.Chain.Walk.{chain_dependencies}
use db_backup.Retention.Tiers.Scan.{Build, tier_hook}

-- `less` of the call of `sort.Slice`.
abbrev pub newest_first : BackupEntry → BackupEntry → Bool
newest_first a b = after a.timestamp b.timestamp

pub newest_first-IsStrictWeak : IsStrictWeak newest_first
newest_first-IsStrictWeak = record {
  asym = λ x y h. ground arith;
  not_less_trans = λ x y z h k. ground arith;
}

unfoldable pub keep_needed : List Bytes → List BackupEntry → List Bytes → List Bytes
keep_needed needed [] kept = kept
keep_needed needed (b ∷ bs) kept =
    keep_needed needed bs (if mem b.file_name needed then b.file_name ∷ kept else kept)

-- `cutoff` is an instant; before the zero time it is 0, before which no instant lies either.
unfoldable pub keep_within : ℕ → List BackupEntry → List Bytes → List Bytes
keep_within cutoff [] kept = kept
keep_within cutoff (b ∷ bs) kept = keep_within cutoff bs (
    if is_zero b.timestamp
    then kept
    else if leb cutoff b.timestamp.instant
    then b.file_name ∷ kept
    else kept)

-- The loop with its counter: it stops when the counter reaches `last`.
unfoldable pub keep_last : ℤ → ℕ → List BackupEntry → List Bytes → List Bytes
keep_last last count [] kept = kept
keep_last last count (b ∷ bs) kept =
    let rest = keep_last last (count + 1) bs (b.file_name ∷ kept) in
    if leb_ℤ last (pos count) then kept else rest

unfoldable pub to_delete : List Bytes → List BackupEntry → List Bytes
to_delete kept [] = []
to_delete kept (b ∷ bs) =
    let rest = to_delete kept bs in if mem b.file_name kept then rest else b.file_name ∷ rest

abbrev pub effective_now : Time → Time → Time
effective_now clock now = if is_zero now then clock else now

abbrev pub cutoff : RetentionPolicy → Time → ℕ
cutoff p now = now.instant - pos_part p.within

-- What is kept before the tiers.
unfoldable pub base_kept : List BackupEntry → RetentionPolicy → Time → List Bytes → List Bytes
unfolding keep_needed keep_within keep_last
base_kept bs p now needed =
    let kept = keep_needed needed bs [] in
    let kept' = if is_positive p.within then keep_within (cutoff p now) bs kept else kept in
    if is_positive p.last then keep_last p.last 0 bs kept' else kept'

-- The policy that reaches the tiers.
unfoldable pub granted : Bool → RetentionPolicy → RetentionPolicy
unfolding has_gfs check_prune strip_tiers
granted allowed p = if has_gfs p then (if check_prune allowed p then p else strip_tiers p) else p

-- From the sorted backups on.
unfoldable pub decide :
    Build → Bool → RetentionPolicy → Time → List BackupEntry → List Bytes → List Bytes
unfolding base_kept granted tier_hook to_delete
decide build allowed p now bs needed =
    to_delete (tier_hook build bs (granted allowed p) (base_kept bs p now needed)) bs

module _ (sorter : SortSlice) (build : Build) (allowed : Bool) (clock : Time) where
  unfoldable pub apply_retention_at :
      List BackupEntry → RetentionPolicy → Time → Option (List Bytes)
  unfolding decide chain_dependencies
  apply_retention_at [] p now = some []
  apply_retention_at (b ∷ bs) p now =
      let sorted = sorter.sort BackupEntry newest_first (b ∷ bs) in
      elim (chain_dependencies sorted) [
        | none ↦ none
        | some needed ↦ some (decide build allowed p (effective_now clock now) sorted needed)
      ]
