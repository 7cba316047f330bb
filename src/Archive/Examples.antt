-- ===== src/Archive/Examples.antt =====
-- Concrete runs of the archive step.
use db_backup.Base.{
  mem, ◌≡◌, refl, true, false, List, [], ◌∷◌, none, some, Bytes, codes, pos, ◌⊎◌, All, bytes_eq,
  take, drop, map, length, leb_ℤ, ◌-ℤ◌,
}
use db_backup.SortSlice.{by_insertion, insertion_sort}
use db_backup.Text.{has_suffix}
use db_backup.Retention.Prune.Delete.{sidecar_name}
use db_backup.Storage.Interface.{Entry, Storage}
use db_backup.Storage.Memory.{memory}
use db_backup.Archive.Move.{Places, BackupFile, newest, keep_count, run_archive, finished}
use db_backup.Archive.NoLoss.{side_by_side, side_by_side-AreApart, run_archive-no_loss}
use db_backup.Archive.Choice.{chosen, keep_count_within, run_archive_unreadable}

-- A source that cannot delete `b`, and a destination that cannot hold `c`.
abbrev hot_disk : Storage
hot_disk = memory (codes "b" ∷ [])

abbrev cold_disk : Storage
cold_disk = memory (codes "c" ∷ [])

abbrev disks : Places hot_disk cold_disk
disks = side_by_side hot_disk cold_disk

abbrev start : disks.Both
start = ((codes "a", codes "x") ∷ (codes "b", codes "y") ∷ (codes "c", codes "z") ∷ [], [])

run_archive-no_loss_example :
    (hot_disk.content
        (run_archive hot_disk cold_disk disks by_insertion
          (λ f. true)
          (pos 1)
          (pos 0)
          (pos 9)
          start).1.0
        (codes "b")
      ≡ some (codes "y"))
    ⊎ (hot_disk.content
          (run_archive hot_disk cold_disk disks by_insertion
            (λ f. true)
            (pos 1)
            (pos 0)
            (pos 9)
            start).1.0
          (codes "b")
        ≡ none)
      × (cold_disk.content
            (run_archive hot_disk cold_disk disks by_insertion
              (λ f. true)
              (pos 1)
              (pos 0)
              (pos 9)
              start).1.1
            (codes "b")
          ≡ some (codes "y"))
unfolding bytes_eq
run_archive-no_loss_example =
    run_archive-no_loss hot_disk cold_disk disks by_insertion (λ f. true) (pos 1) (pos 0) (pos 9)
      start (codes "b") (codes "y") (side_by_side-AreApart hot_disk cold_disk) refl

-- One disk as source and destination: the upload puts a file onto itself, and the deletion loses it.
abbrev plain_disk : Storage
plain_disk = memory []

abbrev one_place : Places plain_disk plain_disk
one_place = record {
  Both = Storage.State plain_disk;
  hot = λ p. p;
  cold = λ p. p;
  put_hot = λ h p. h;
  put_cold = λ c p. c;
}

lost_in_one_place :
    run_archive plain_disk plain_disk one_place by_insertion
      (λ f. true)
      (pos 0)
      (pos 0)
      (pos 9)
      ((codes "a", codes "x") ∷ [])
    ≡ (finished 1 (codes "a" ∷ []), [])
unfolding run_archive bytes_eq sidecar_name insertion_sort has_suffix mem
lost_in_one_place = refl

abbrev three_files : List BackupFile
three_files =
    record { path = codes "a"; mod_time = pos 3 }
    ∷ record { path = codes "b"; mod_time = pos 7 }
    ∷ record { path = codes "c"; mod_time = pos 5 }
    ∷ []

keep_count_within_example :
    All
      (λ x. leb_ℤ (pos 9 -ℤ pos 4) x.mod_time ≡ true)
      (take
        (keep_count (pos 1) (pos 4) (pos 9) (by_insertion.sort BackupFile newest three_files))
        (by_insertion.sort BackupFile newest three_files))
    × All
        (λ x. leb_ℤ (pos 9 -ℤ pos 4) x.mod_time ≡ false)
        (drop
          (keep_count (pos 1) (pos 4) (pos 9) (by_insertion.sort BackupFile newest three_files))
          (by_insertion.sort BackupFile newest three_files))
keep_count_within_example = keep_count_within by_insertion (pos 1) (pos 4) (pos 9) three_files refl

nothing-some :
    (fs : Storage.State hot_disk) (p c : Bytes) → none ≡ some c → hot_disk.content fs p ≡ some c
nothing-some fs p c h = cc

-- A source from which nothing can be read.
abbrev mute_disk : Storage
mute_disk = record hot_disk {
  download = λ p fs. none;
  download_some = λ p c fs h. nothing-some fs p c h;
}

abbrev entries : List Entry
entries =
    record { path = codes "a"; size = pos 0; mod_time = pos 0 }
    ∷ record { path = codes "b"; size = pos 0; mod_time = pos 0 }
    ∷ []

abbrev mute_start : Places.Both (side_by_side mute_disk cold_disk)
mute_start = ((codes "a", []) ∷ (codes "b", []) ∷ [], [])

run_archive_unreadable_example :
    run_archive mute_disk cold_disk
      (side_by_side mute_disk cold_disk)
      by_insertion
      (λ f. true)
      (pos 1)
      (pos 0)
      (pos 9)
      mute_start
    ≡ (
      finished
          (length (chosen by_insertion (λ f. true) (pos 1) (pos 0) (pos 9) entries))
          (map (λ b. b.path) (chosen by_insertion (λ f. true) (pos 1) (pos 0) (pos 9) entries)),
      mute_start,
    )
run_archive_unreadable_example =
    run_archive_unreadable mute_disk cold_disk (side_by_side mute_disk cold_disk) (λ p s. refl)
      by_insertion (λ f. true) (pos 1) (pos 0) (pos 9) mute_start entries refl
