-- ===== src/Restore/Examples.antt =====
-- A restore of the incremental backup of the retention examples, from a disk with its sidecars.
use db_backup.Base.{
  pos, mem, ◌≡◌, refl, sym, subst, Bool, true, List, [], ◌∷◌, ◌++◌, Option, none, some, Bytes,
  codes, bytes_eq, bytes_eq_iff, All, In, length, ◌⊎◌, inl, inr, Bool-cases,
}
use db_backup.SortSlice.{by_insertion, insertion_sort}
use db_backup.Storage.Interface.{Entry, Storage}
use db_backup.Storage.Memory.{Files, memory}
use db_backup.Retention.Listing.{Readers, Sidecar, read_sidecar}
use db_backup.Retention.Prune.Delete.{sidecar_name}
use db_backup.Retention.Policy.{BackupEntry}
use db_backup.Retention.Chain.Walk.{find_entry}
use db_backup.Retention.Tiers.Scan.{supported}
use db_backup.Retention.Examples.{
  listing, one_left, doomed, at, increment, old_full, base_full, run, no_twins,
}
use db_backup.Restore.Chain.{next_base, restore_order, restore}
use db_backup.Restore.Links.{AreLinked, HasRoot, restore_order-AreLinked}
use db_backup.Restore.Kept.{IsListed, ReadsBases, apply_retention_at-keeps_restore}
use db_backup.Text.{trim_space, trim_suffix, has_prefix, has_suffix}
use db_backup.Runner.Examples.{dated, tools, lossy, nightly, healthy}
use db_backup.Runner.Run.{Tools, pre, post, run_one, has_checksum}
use db_backup.Restore.AfterRun.{IsReliable, Resumes, run_one-Resumes}
use db_backup.Restore.Codec.{framed_sidecar, read_frames, read_frames-framed_sidecar}
use db_backup.Restore.Replay.{Replays, restore-Replays}

abbrev disk : Storage
disk = memory []

-- A sidecar here is the name of its base.
abbrev bases : Readers
bases = record {
  unmarshal = λ b. some (record { strategy = []; base = b; timestamp = []; position = [] });
  parse_rfc3339 = λ b. none;
  parse_stamp = λ b. none;
  is_backup_file = λ b. true;
}

abbrev files : Files
files =
    (codes "b", codes "rows")
    ∷ (codes "b.json", [])
    ∷ (codes "c", codes "changes")
    ∷ (codes "c.json", codes "b")
    ∷ []

order_of_c : restore_order disk bases [] (codes "c") files ≡ codes "b" ∷ codes "c" ∷ []
unfolding restore_order bytes_eq sidecar_name
order_of_c = refl

-- A database that is the list of what was applied to it.
abbrev log : Bytes → List Bytes → Bool × List Bytes
log plain db = (true, db ++ plain ∷ [])

abbrev opens : Bytes → Bytes → Option Bytes
opens f c = some c

restored :
    restore disk bases opens log [] (codes "c") files []
    ≡ (true, codes "rows" ∷ codes "changes" ∷ [])
unfolding restore bytes_eq sidecar_name
restored = refl

restore_order-AreLinked_example :
    AreLinked disk bases [] (codes "c") files (restore_order disk bases [] (codes "c") files)
    × (HasRoot disk bases [] (codes "c") files (restore_order disk bases [] (codes "c") files)
        ⊎ (length (restore_order disk bases [] (codes "c") files) ≡ 65))
restore_order-AreLinked_example = restore_order-AreLinked disk bases [] (codes "c") files

restore-Replays_example :
    Replays disk bases opens log files
      (restore_order disk bases [] (codes "c") files)
      []
      (restore disk bases opens log [] (codes "c") files []).0
      (restore disk bases opens log [] (codes "c") files []).1
restore-Replays_example = restore-Replays disk bases opens log [] (codes "c") files []

-- The name decides on the entry and on its base.
reads_one :
    (k j : Bytes) (e b : BackupEntry)
    → k ≡ j
    → e ≡ b
    → next_base disk bases [] (codes "c") files k ≡ e.base
    → next_base disk bases [] (codes "c") files j ≡ b.base
reads_one k j e b p q h = rw (← p, ← q) h

reads_all : ReadsBases disk bases files (codes "c") listing
unfolding next_base bytes_eq find_entry sidecar_name
reads_all j b h = elim (Bool-cases (bytes_eq (codes "a") j)) [
  | inl p ↦ reads_one (codes "a") j old_full b ((bytes_eq_iff (codes "a") j).0 p) (cc) refl
  | inr n ↦ elim (Bool-cases (bytes_eq (codes "b") j)) [
    | inl p ↦ reads_one (codes "b") j base_full b ((bytes_eq_iff (codes "b") j).0 p) (cc) refl
    | inr m ↦ elim (Bool-cases (bytes_eq (codes "c") j)) [
      | inl p ↦ reads_one (codes "c") j increment b ((bytes_eq_iff (codes "c") j).0 p) (cc) refl
      | inr l ↦ cc
    ]
  ]
]

listed : All (IsListed listing) (codes "b" ∷ codes "c" ∷ [])
unfolding find_entry bytes_eq
listed = ((base_full, refl), ((increment, refl), tt))

c_found : find_entry listing (codes "c") ≡ some increment
unfolding find_entry bytes_eq
c_found = refl

apply_retention_at-keeps_restore_example : ¬ In (codes "b") doomed
unfolding bytes_eq
apply_retention_at-keeps_restore_example =
    apply_retention_at-keeps_restore by_insertion supported true (at 40) listing one_left (at 40)
      doomed disk bases (codes "c") files increment (codes "b") run no_twins reads_all c_found refl
      (subst (All (IsListed listing)) (sym order_of_c) listed)
      (subst (In (codes "b")) (sym order_of_c) (inl refl))
      (λ e. cc ((bytes_eq_iff (codes "b") (codes "c")).1 e))

abbrev exact_readers : Readers
exact_readers = record bases { unmarshal = read_frames }

abbrev exact_tools : Tools
exact_tools = record tools { marshal = λ m. framed_sidecar m.sidecar }

abbrev full_sidecar : Sidecar
full_sidecar = record {
  strategy = codes "full";
  base = [];
  timestamp = codes "t";
  position = codes "p1";
}

abbrev one_dated : Files
one_dated =
    (codes "mysql-shop-db1-full-1.sql", codes "rows")
    ∷ (codes "mysql-shop-db1-full-1.sql.json", framed_sidecar full_sidecar)
    ∷ []

abbrev dated_entries : List Entry
dated_entries =
    record { path = codes "mysql-shop-db1-full-1.sql"; size = pos 0; mod_time = pos 5 }
    ∷ record { path = codes "mysql-shop-db1-full-1.sql.json"; size = pos 0; mod_time = pos 5 }
    ∷ []

told_of :
    (run_one exact_tools by_insertion dated lossy exact_readers healthy nightly one_dated).1
    ≡ pre ∷ post (codes "ok") (codes "mysql-shop-db1-incr-2.sql") ∷ []
unfolding run_one trim_space insertion_sort has_prefix has_suffix read_sidecar trim_suffix
told_of = refl

never_fails : IsReliable dated
unfolding mem
never_fails = record { uploads = λ p c s. refl; downloads = λ p s. refl }

has_md5 : has_checksum nightly.checksum ≡ true
unfolding has_checksum bytes_eq
has_md5 = refl

run_one-Resumes_example :
    Resumes exact_tools by_insertion dated lossy exact_readers healthy nightly one_dated
      (codes "mysql-shop-db1-incr-2.sql")
      (run_one exact_tools by_insertion dated lossy exact_readers healthy nightly one_dated).2
run_one-Resumes_example =
    run_one-Resumes exact_tools by_insertion dated lossy exact_readers healthy nightly one_dated
      (codes "mysql-shop-db1-incr-2.sql") dated_entries never_fails read_frames-framed_sidecar
      has_md5 refl refl (refl, (refl, tt))
      (subst (In (post (codes "ok") (codes "mysql-shop-db1-incr-2.sql"))) (sym told_of)
        (inr (inl refl)))
