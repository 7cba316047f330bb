-- ===== src/Retention/Prune/Step.antt =====
-- `ParseWithin` with its supported half (src/supported/retention/backend/parse.go), and
-- `retentionPolicy` and `applyPrune` of src/internal/scheduler/retention.go. A result with an error is
-- `none`. Log lines are dropped; the activity sink is called in the outcome `pruned`.
use db_backup.Base.{
  ℕ, ◌*◌, Bool, not, List, [], ◌∷◌, Option, none, some, Bytes, codes, bytes_eq, length, ℤ, pos,
  negsuc, wrap64, if◌then◌else◌,
}
use db_backup.Text.{trim_suffix, has_suffix, trim_space, atoi}
use db_backup.Clock.{Time, second, minute, hour}
use db_backup.SortSlice.{SortSlice}
use db_backup.Storage.Interface.{Storage}
use db_backup.Retention.Policy.{
  BackupEntry, RetentionPolicy, is_positive, is_valid, check_prune, strip_tiers,
}
use db_backup.Retention.Tiers.Scan.{Build, community, supported}
use db_backup.Retention.Apply.Defs.{apply_retention_at}
use db_backup.Retention.Listing.{Readers, list_backups_with_sidecars, zero_time}
use db_backup.Retention.Prune.Delete.{delete_backups}

-- `time.Duration(n) * unit`, with the wrap-around of 64 bits.
abbrev times : ℤ → ℕ → ℤ
times (pos n) unit = wrap64 (pos (n * unit))
times (negsuc n) unit = negsuc n

-- `n, err := strconv.Atoi(…); if err != nil || n <= 0`
unfoldable pub positive_count : Bytes → Option ℤ
positive_count num = elim (atoi (trim_space num)) [
  | none ↦ none
  | some n ↦ if is_positive n then some n else none
]

abbrev in_units : Bytes → ℕ → Option ℤ
in_units num unit = elim (positive_count num) [ none ↦ none | some n ↦ some (times n unit) ]

unfoldable pub parse_within_full : Bool → Bytes → Option ℤ
unfolding positive_count
parse_within_full allowed s =
    if not allowed
    then none
    else if has_suffix s (codes "s")
    then in_units (trim_suffix s (codes "s")) second
    else if has_suffix s (codes "m")
    then in_units (trim_suffix s (codes "m")) minute
    else if has_suffix s (codes "h")
    then in_units (trim_suffix s (codes "h")) hour
    else if has_suffix s (codes "d")
    then in_units (trim_suffix s (codes "d")) (24 * hour)
    else in_units s hour

unfoldable pub supporter_parse_within : Build → Bool → Bytes → Option ℤ
unfolding parse_within_full
supporter_parse_within community allowed s = none
supporter_parse_within supported allowed s = parse_within_full allowed s

unfoldable pub parse_within : Build → Bool → Bytes → Option ℤ
unfolding supporter_parse_within positive_count
parse_within build allowed s =
    if bytes_eq s []
    then some (pos 0)
    else if bytes_eq (trim_space s) []
    then some (pos 0)
    else if has_suffix (trim_space s) (codes "m")
    then in_units (trim_suffix (trim_space s) (codes "m")) minute
    else supporter_parse_within build allowed (trim_space s)

-- `config.RetentionConfig`
pub record RetentionConfig : Type 0 where
  pub last : Option ℤ
  pub within : Bytes
  pub hourly : Option ℤ
  pub daily : Option ℤ
  pub weekly : Option ℤ
  pub monthly : Option ℤ
  pub yearly : Option ℤ

abbrev or_zero : Option ℤ → ℤ
or_zero none = pos 0
or_zero (some n) = n

unfoldable pub retention_policy : Build → Bool → Option RetentionConfig → RetentionPolicy
unfolding parse_within
retention_policy build allowed none = record {
  last = pos 0;
  within = pos 0;
  hourly = pos 0;
  daily = pos 0;
  weekly = pos 0;
  monthly = pos 0;
  yearly = pos 0;
}
retention_policy build allowed (some r) = record {
  last = or_zero r.last;
  within = if bytes_eq r.within [] then pos 0 else or_zero (parse_within build allowed r.within);
  hourly = or_zero r.hourly;
  daily = or_zero r.daily;
  weekly = or_zero r.weekly;
  monthly = or_zero r.monthly;
  yearly = or_zero r.yearly;
}

pub data Pruning : Type 0 where
  no_rules skipped storage_failed list_failed nothing_to_delete stuck : Pruning
  delete_failed : List Bytes → Pruning
  pruned : ℕ → Pruning

-- The policy with which `applyPrune` goes on, `none` where it returns before it opens the storage.
unfoldable pub prune_policy : Bool → RetentionPolicy → Option RetentionPolicy
unfolding check_prune strip_tiers is_valid
prune_policy allowed p =
    if not (is_valid p)
    then none
    else if check_prune allowed p
    then some p
    else if is_valid (strip_tiers p)
    then some (strip_tiers p)
    else none

module _ (sorter : SortSlice) (build : Build) (allowed : Bool) (clock : Time) (st : Storage)
    (io : Readers) where
  unfoldable pub report : ℕ → List Bytes → Storage.State st → Pruning × Storage.State st
  report n [] s = (pruned n, s)
  report n (e ∷ es) s = (delete_failed (e ∷ es), s)

  -- The deletions at the end.
  unfoldable pub finish : List Bytes → Storage.State st → Pruning × Storage.State st
  unfolding report
  finish [] s = (nothing_to_delete, s)
  finish (f ∷ fs) s =
      let (errs, s') = delete_backups st (f ∷ fs) s in report (length (f ∷ fs)) errs s'

  -- `stuck` stands for the chain walk out of fuel, which never happens.
  unfoldable pub prune_listed :
      List BackupEntry → RetentionPolicy → Storage.State st → Pruning × Storage.State st
  unfolding finish
  prune_listed backups p s =
      elim (apply_retention_at sorter build allowed clock backups p zero_time) [
        | none ↦ (stuck, s)
        | some out ↦ finish out s
      ]

  -- `opened` tells whether `storageFromConfig` gives a storage.
  unfoldable pub apply_prune :
      Bool → Option RetentionConfig → Storage.State st → Pruning × Storage.State st
  unfolding retention_policy prune_policy prune_listed
  apply_prune opened ret s =
      let p = retention_policy build allowed ret in
      elim (prune_policy allowed p) [
        | none ↦ (if is_valid p then skipped else no_rules, s)
        | some q ↦
            if not opened
            then (storage_failed, s)
            else elim (list_backups_with_sidecars st io [] s) [
              | none ↦ (list_failed, s)
              | some backups ↦ prune_listed backups q s
            ]
      ]
