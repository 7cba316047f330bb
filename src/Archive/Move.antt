-- ===== src/Archive/Move.antt =====
-- `moveFile` and `runArchive` of src/supported/retention/backend/archive.go. `time.Now()` in
-- nanoseconds, and the test `database.IsBackupFile`, are arguments; log lines are dropped.
use db_backup.Base.{
  ℕ, suc, ◌+◌, Bool, not, List, [], ◌∷◌, ◌++◌, none, some, Bytes, codes, length, ℤ, ◌-ℤ◌,
  if◌then◌else◌, drop, leb, leb_ℤ, ltb_ℤ, pos_part, arith,
}
use db_backup.Text.{has_suffix}
use db_backup.SortSlice.{SortSlice, IsStrictWeak}
use db_backup.Storage.Interface.{Entry, done, not_exist, failed, Storage}
use db_backup.Retention.Policy.{is_positive}
use db_backup.Retention.Prune.Delete.{sidecar_name}

pub data MoveResult : Type 0 where
  moved upload_failed delete_failed : MoveResult

-- `backupFile`
pub record BackupFile : Type 0 where
  pub path : Bytes
  pub mod_time : ℤ

pub data Archived : Type 0 where
  list_failed : Archived
  finished : (moved : ℕ) (candidates : List Bytes) → Archived
  move_failed : (moved : ℕ) (candidates : List Bytes) (result : MoveResult) → Archived

-- Where the two storages stand: a state of both, the state that it is for each, and what a new state of
-- one makes of it. They may be two places or one.
pub record Places (src dst : Storage) : Type 1 where
  pub Both : Type 0
  pub hot : Both → Storage.State src
  pub cold : Both → Storage.State dst
  pub put_hot : Storage.State src → Both → Both
  pub put_cold : Storage.State dst → Both → Both

abbrev pub newest : BackupFile → BackupFile → Bool
newest a b = ltb_ℤ b.mod_time a.mod_time

pub newest-IsStrictWeak : IsStrictWeak newest
newest-IsStrictWeak = record {
  asym = λ x y h. ground arith;
  not_less_trans = λ x y z h k. ground arith;
}

-- The `for` loop that counts the files of the window.
unfoldable pub count_young : ℤ → List BackupFile → ℕ
count_young cutoff [] = 0
count_young cutoff (b ∷ bs) =
    let rest = suc (count_young cutoff bs) in if leb_ℤ cutoff b.mod_time then rest else 0

-- How many of the sorted files stay; `last` and `within` are the fields of `ArchiveConfig`.
unfoldable pub keep_count : ℤ → ℤ → ℤ → List BackupFile → ℕ
unfolding count_young ◌-ℤ◌
keep_count last within now bs =
    if is_positive within
    then count_young (now -ℤ within) bs
    else if is_positive last
    then pos_part last
    else 0

module _ (is_backup_file : Bytes → Bool) where
  unfoldable pub backup_files : List Entry → List BackupFile
  backup_files [] = []
  backup_files (e ∷ es) =
      let rest = backup_files es in
      if has_suffix e.path (codes ".json")
      then rest
      else if not (is_backup_file e.path)
      then rest
      else record { path = e.path; mod_time = e.mod_time } ∷ rest

module _ (src dst : Storage) (places : Places src dst) where
  open places use {Both, hot, cold, put_hot, put_cold}

  abbrev pub uploaded : Bytes → Bytes → Both → Both
  uploaded path c p = put_cold (dst.upload path c (cold p)).1 p

  abbrev pub deleted : Bytes → Both → Both
  deleted path p = put_hot (src.delete path (hot p)).1 p

  -- After a download: `Upload` to the destination, then `Delete` from the source.
  unfoldable pub transfer : Bytes → Bytes → Both → MoveResult × Both
  transfer path c p =
      let p' = uploaded path c p in
      elim (dst.upload path c (cold p)).0 [
        | done ↦ elim (src.delete path (hot p')).0 [
          | done ↦ (moved, deleted path p')
          | not_exist ↦ (delete_failed, deleted path p')
          | failed ↦ (delete_failed, deleted path p')
        ]
        | not_exist ↦ (upload_failed, p')
        | failed ↦ (upload_failed, p')
      ]

  -- A download that fails is no error of `moveFile`.
  unfoldable pub move_file : Bytes → Both → MoveResult × Both
  unfolding transfer
  move_file [] p = (moved, p)
  move_file (h ∷ t) p = elim (src.download (h ∷ t) (hot p)) [
    | none ↦ (moved, p)
    | some c ↦ transfer (h ∷ t) c p
  ]

  -- The files that go with a backup; their results are dropped.
  unfoldable pub move_companions : Bytes → Both → Both
  unfolding move_file sidecar_name
  move_companions path p =
      (move_file (path ++ codes ".sha1")
        (move_file (path ++ codes ".md5") (move_file (sidecar_name path) p).1).1).1

  unfoldable pub archive_loop : ℕ → List Bytes → List BackupFile → Both → Archived × Both
  unfolding move_companions
  archive_loop count candidates [] p = (finished count candidates, p)
  archive_loop count candidates (b ∷ bs) p =
      let (result, p') = move_file b.path p in
      let rest =
        archive_loop (count + 1) (candidates ++ b.path ∷ []) bs (move_companions b.path p') in
      elim result [
        | moved ↦ rest
        | upload_failed ↦ (move_failed count (candidates ++ b.path ∷ []) upload_failed, p')
        | delete_failed ↦ (move_failed count (candidates ++ b.path ∷ []) delete_failed, p')
      ]

  unfoldable pub run_archive : SortSlice → (Bytes → Bool) → ℤ → ℤ → ℤ → Both → Archived × Both
  unfolding backup_files keep_count archive_loop
  run_archive sorter is_backup_file last within now p = elim (src.list [] (hot p)) [
    | none ↦ (list_failed, p)
    | some entries ↦
        let sorted = sorter.sort BackupFile newest (backup_files is_backup_file entries) in
        let keep = keep_count last within now sorted in
        if leb (length sorted) keep
        then (finished 0 [], p)
        else archive_loop 0 [] (drop keep sorted) p
  ]
