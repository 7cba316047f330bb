-- ===== src/Retention/Listing.antt =====
-- `ListBackupsWithSidecars` of retention.go, with the readers of file names of sidecar.go. JSON,
-- `time.Parse` and the regular expressions of `database.IsBackupFile` are arguments.
use db_backup.Base.{
  ℕ, ◌-◌, Bool, not, List, [], ◌∷◌, ◌++◌, Option, none, some, Bytes, codes, bytes_eq, leb, length,
  ℤ, get_elem?, if◌then◌else◌,
}
use db_backup.Text.{trim_suffix, has_suffix, split}
use db_backup.Clock.{Time, is_zero}
use db_backup.Storage.Interface.{Entry, Storage}
use db_backup.Retention.Policy.{BackupEntry}
use db_backup.Retention.Prune.Delete.{sidecar_name}

unfoldable pub strip_all : List Bytes → Bytes → Bytes
strip_all [] s = s
strip_all (e ∷ es) s = strip_all es (trim_suffix s e)

abbrev dump_format_exts : List Bytes
dump_format_exts =
    codes ".sql" ∷ codes ".mongo" ∷ codes ".redis" ∷ codes ".influx" ∷ codes ".couch" ∷ []

abbrev wrapper_exts : List Bytes
wrapper_exts = codes ".gpg" ∷ codes ".zst" ∷ codes ".gz" ∷ codes ".bz2" ∷ codes ".xz" ∷ []

unfoldable pub strip_format_ext : Bytes → Bytes
unfolding strip_all
strip_format_ext s = strip_all dump_format_exts s

-- `parts[len(parts)-i]`
abbrev from_end : List Bytes → ℕ → Option Bytes
from_end parts i = get_elem? parts (length parts - i)

unfoldable pub strategy_from_filename : Bytes → Bytes
unfolding strip_all strip_format_ext
strategy_from_filename f =
    let parts = split (strip_format_ext (strip_all wrapper_exts f)) b'-' in
    if leb 4 (length parts)
    then elim (from_end parts 3) [
      | none ↦ codes "full"
      | some p ↦
          if bytes_eq p (codes "incr")
          then codes "incremental"
          else if bytes_eq p (codes "diff")
          then codes "differential"
          else codes "full"
    ]
    else codes "full"

-- `ParseTimestamp`: `parse_stamp` is `time.Parse("20060102-150405", …)`.
unfoldable pub parse_timestamp : (Bytes → Option Time) → Bytes → Option Time
unfolding strip_all strip_format_ext
parse_timestamp parse_stamp f =
    let parts = split (strip_format_ext (strip_all wrapper_exts f)) b'-' in
    if leb 2 (length parts)
    then elim (from_end parts 2) [
      | none ↦ none
      | some a ↦ elim (from_end parts 1) [
        | none ↦ none
        | some b ↦ parse_stamp (a ++ codes "-" ++ b)
      ]
    ]
    else none

-- The fields of `Sidecar` that the listing reads.
pub record Sidecar : Type 0 where
  pub strategy : Bytes
  pub base : Bytes
  pub timestamp : Bytes
  pub position : Bytes

-- What the listing takes from outside the repository.
pub record Readers : Type 0 where
  pub unmarshal : Bytes → Option Sidecar
  pub parse_rfc3339 : Bytes → Option Time
  pub parse_stamp : Bytes → Option Time
  pub is_backup_file : Bytes → Bool

abbrev pub zero_time : Time
zero_time = record { instant = 0; zone = ℤ.pos 0 }

module _ (st : Storage) (io : Readers) where
  open st use {State, download, list}
  open io use {unmarshal, parse_rfc3339, parse_stamp, is_backup_file}

  -- `ReadSidecar`
  unfoldable pub read_sidecar : State → Bytes → Option Sidecar
  read_sidecar s name = elim (download (sidecar_name name) s) [ none ↦ none | some b ↦ unmarshal b ]

  -- The first loop: the sidecars by the name of their backup. A later one of a name replaces an
  -- earlier one, so the newest stands first.
  unfoldable pub collect_sidecars :
      State → List Entry → List (Bytes × Sidecar) → List (Bytes × Sidecar)
  unfolding read_sidecar
  collect_sidecars s [] found = found
  collect_sidecars s (e ∷ es) found =
      let name = trim_suffix e.path (codes ".json") in
      collect_sidecars s es (
        if has_suffix e.path (codes ".json")
        then elim (read_sidecar s name) [ none ↦ found | some sc ↦ (name, sc) ∷ found ]
        else found)

  abbrev look_up : List (Bytes × Sidecar) → Bytes → Option Sidecar
  look_up [] k = none
  look_up ((j, sc) ∷ m) k = if bytes_eq j k then some sc else look_up m k

  abbrev sidecar_time : Option Sidecar → Time
  sidecar_time none = zero_time
  sidecar_time (some sc) = elim (parse_rfc3339 sc.timestamp) [ none ↦ zero_time | some t ↦ t ]

  abbrev or_filename : Time → Option Time → Time
  or_filename ts (some t) = if is_zero ts then t else ts
  or_filename ts none = ts

  -- The body of the second loop for a backup file.
  unfoldable pub describe_entry : List (Bytes × Sidecar) → Entry → BackupEntry
  unfolding parse_timestamp strategy_from_filename
  describe_entry sidecars e =
      let sc = look_up sidecars e.path in
      let strategy : Bytes = elim sc [ none ↦ codes "full" | some x ↦ x.strategy ] in
      record {
        file_name = e.path;
        timestamp = or_filename (sidecar_time sc) (parse_timestamp parse_stamp e.path);
        strategy =
            if bytes_eq strategy (codes "full") then strategy_from_filename e.path else strategy;
        base = elim sc [ none ↦ [] | some x ↦ x.base ];
        size = e.size;
      }

  unfoldable pub collect_backups : List (Bytes × Sidecar) → List Entry → List BackupEntry
  unfolding describe_entry
  collect_backups sidecars [] = []
  collect_backups sidecars (e ∷ es) =
      let rest = collect_backups sidecars es in
      if has_suffix e.path (codes ".json")
      then rest
      else if not (is_backup_file e.path)
      then rest
      else describe_entry sidecars e ∷ rest

  unfoldable pub list_backups_with_sidecars : Bytes → State → Option (List BackupEntry)
  unfolding collect_sidecars collect_backups
  list_backups_with_sidecars prefix s = elim (list prefix s) [
    | none ↦ none
    | some entries ↦ some (collect_backups (collect_sidecars s entries []) entries)
  ]
