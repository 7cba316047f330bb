-- ===== src/Retention/Policy.antt =====
-- src/internal/retention: BackupEntry, RetentionPolicy and the guards on the policy's fields.
-- A Go `int` or `time.Duration` is an integer; whether the edition's licence allows the tiers
-- (`license.AllowRetention() == nil`) is an argument.
use db_backup.Base.{Bool, true, false, ◌||◌, Bytes, ltb, ℤ, pos, negsuc, if◌then◌else◌}
use db_backup.Clock.{Time}

pub record BackupEntry : Type 0 where
  pub file_name : Bytes
  pub timestamp : Time
  pub strategy : Bytes
  pub base : Bytes
  pub size : ℤ

pub record RetentionPolicy : Type 0 where
  pub last : ℤ
  pub within : ℤ
  pub hourly : ℤ
  pub daily : ℤ
  pub weekly : ℤ
  pub monthly : ℤ
  pub yearly : ℤ

abbrev pub is_positive : ℤ → Bool
is_positive (pos n) = ltb 0 n
is_positive (negsuc n) = false

unfoldable pub has_gfs : RetentionPolicy → Bool
has_gfs p =
    is_positive p.hourly
    || is_positive p.daily
    || is_positive p.weekly
    || is_positive p.monthly
    || is_positive p.yearly

unfoldable pub is_valid : RetentionPolicy → Bool
is_valid p =
    is_positive p.last
    || is_positive p.within
    || is_positive p.hourly
    || is_positive p.daily
    || is_positive p.weekly
    || is_positive p.monthly
    || is_positive p.yearly

unfoldable pub strip_tiers : RetentionPolicy → RetentionPolicy
strip_tiers p = record p {
  hourly = pos 0;
  daily = pos 0;
  weekly = pos 0;
  monthly = pos 0;
  yearly = pos 0;
}

-- `CheckPrune`: true where it returns no error.
unfoldable pub check_prune : Bool → RetentionPolicy → Bool
check_prune allowed p =
    if is_positive p.hourly
      || is_positive p.daily
      || is_positive p.weekly
      || is_positive p.monthly
      || is_positive p.yearly
    then allowed
    else true
