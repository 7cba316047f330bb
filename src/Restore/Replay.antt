-- ===== src/Restore/Replay.antt =====
-- What `cmdRestore` of src/cmd/dbb/restore.go has applied when it returns.
use db_backup.Base.{
  ◌≡◌, refl, Bool, true, false, List, [], ◌∷◌, ◌++◌, Option, none, some, Bytes, Option-cases, inl,
  inr, ◌⊎◌,
}
use db_backup.Storage.Interface.{Storage}
use db_backup.Retention.Listing.{Readers}
use db_backup.Restore.Chain.{restore_order, restore_file, restore_files, restore}

module _ (st : Storage) (io : Readers) {Db : Type 0} (open_backup : Bytes → Bytes → Option Bytes)
    (apply : Bytes → Db → Bool × Db) (s : st.State) where
  open st use {content, download, download_some}

  -- The file's content, decrypted and decompressed, is given to the engine on one database, which
  -- answers so and leaves the other.
  abbrev pub AppliesOne : Bytes → Bool → Db → Db → Type 0
  AppliesOne f ok db db' =
      (c : Bytes) × (plain : Bytes) × (content s f ≡ some c)
      × (open_backup f c ≡ some plain)
      × (apply plain db ≡ (ok, db'))

  -- The file cannot be downloaded, decrypted or decompressed.
  abbrev pub IsUnreadable : Bytes → Type 0
  IsUnreadable f =
      (download f s ≡ none) ⊎ ((c : Bytes) × (download f s ≡ some c) × (open_backup f c ≡ none))

  abbrev pub Applies : List Bytes → Db → Db → Type 0
  Applies [] db db' = db ≡ db'
  Applies (f ∷ fs) db db' = (mid : Db) × AppliesOne f true db mid × Applies fs mid db'

  -- All files are applied one after the other; or those in front of some file are, and that one
  -- cannot be read, or the engine fails on it and leaves the database as it is then.
  abbrev pub Replays : List Bytes → Db → Bool → Db → Type 0
  Replays fs db ok db' =
      ((ok ≡ true) × Applies fs db db')
      ⊎ ((ok ≡ false)
          × (before : List Bytes) × (f : Bytes) × (after : List Bytes) × (mid : Db) × (fs
              ≡ before ++ f ∷ after)
          × Applies before db mid
          × ((IsUnreadable f × (db' ≡ mid)) ⊎ AppliesOne f false mid db'))

  restore_file_cases :
      (f : Bytes) (db : Db)
      → ((restore_file st io open_backup apply s f db ≡ (false, db)) × IsUnreadable f)
        ⊎ ((r : Bool × Db) × (restore_file st io open_backup apply s f db ≡ r)
            × AppliesOne f r.0 db r.1)
  unfolding restore_file
  restore_file_cases f db = elim (Option-cases (download f s)) [
    | inl n ↦ inl (rw (n, restore_file), inl n)
    | inr (c, d) ↦ elim (Option-cases (open_backup f c)) [
      | inl n ↦ inl (rw (d, n, restore_file), inr (c, d, n))
      | inr (plain, o) ↦
          inr (apply plain db, rw (d, o, restore_file), (c, plain, download_some f c s d, o, refl))
    ]
  ]

  restore_files-Replays :
      (fs : List Bytes) (db : Db)
      → Replays fs db
          (restore_files st io open_backup apply s fs db).0
          (restore_files st io open_backup apply s fs db).1
  unfolding restore_files
  restore_files-Replays [] db = inl (refl, refl)
  restore_files-Replays (f ∷ fs) db = elim (restore_file_cases f db) [
    | inl (e, bad) ↦ rw (e, restore_files) (inr (refl, [], f, fs, db, refl, refl, inl (bad, refl)))
    | inr ((false, mid), e, one) ↦
        rw (e, restore_files) (inr (refl, [], f, fs, db, refl, refl, inr one))
    | inr ((true, mid), e, one) ↦
        rw (e, restore_files) (behind mid one (restore_files-Replays fs mid))
  ]
    where
      behind :
          (mid : Db)
          → AppliesOne f true db mid
          → Replays fs mid
              (restore_files st io open_backup apply s fs mid).0
              (restore_files st io open_backup apply s fs mid).1
          → Replays
              (f ∷ fs)
              db
              (restore_files st io open_backup apply s fs mid).0
              (restore_files st io open_backup apply s fs mid).1
      behind mid one r = elim r [
        | inl (ok, all) ↦ inl (ok, (mid, one, all))
        | inr (bad, before, g, after, m, whole, applied, end) ↦
            inr (bad, f ∷ before, g, after, m, cc, (mid, one, applied), end)
      ]

-- A restore applies the contents of the files of its order one after the other, each decrypted and
-- decompressed. It succeeds exactly if it has applied them all; else it stops at a first file that
-- cannot be read or that the engine fails on, and leaves the database as that file left it.
pub restore-Replays :
    (st : Storage) (io : Readers) {Db : Type 0} (open_backup : Bytes → Bytes → Option Bytes)
    (apply : Bytes → Db → Bool × Db) (given file : Bytes) (s : st.State) (db : Db)
    → Replays st io open_backup apply s
        (restore_order st io given file s)
        db
        (restore st io open_backup apply given file s db).0
        (restore st io open_backup apply given file s db).1
unfolding restore
restore-Replays st io open_backup apply given file s db =
    restore_files-Replays st io open_backup apply s (restore_order st io given file s) db
