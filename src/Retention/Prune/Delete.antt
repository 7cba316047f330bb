-- ===== src/Retention/Prune/Delete.antt =====
-- `DeleteBackupsWithContext`: a backup, its sidecar and its checksum files. The errors are collected
-- by the path that they are about; a missing sidecar or checksum file is none.
use db_backup.Base.{Bool, true, false, List, [], ◌∷◌, ◌++◌, Bytes, codes}
use db_backup.Storage.Interface.{done, not_exist, failed, Storage}

-- `SidecarName` of src/internal/retention/sidecar.go
unfoldable pub sidecar_name : Bytes → Bytes
sidecar_name f = f ++ codes ".json"

module _ (st : Storage) where
  open st use {State, content, delete, delete_done, delete_missing, delete_frame}

  abbrev pub Run : Type 0
  Run = List Bytes × State

  -- `st.Delete` with the errors so far; `strict` is false where `os.IsNotExist` is let pass.
  unfoldable pub try_delete : Bool → Bytes → Run → Run
  try_delete strict p (errs, s) =
      let (status, s') = delete p s in
      elim status [
        | done ↦ (errs, s')
        | not_exist ↦ elim strict [ true ↦ (errs ++ p ∷ [], s') | false ↦ (errs, s') ]
        | failed ↦ (errs ++ p ∷ [], s')
      ]

  unfoldable pub delete_one : Bytes → Run → Run
  unfolding try_delete sidecar_name
  delete_one f run = try_delete false (f ++ codes ".sha1") (
      try_delete false (f ++ codes ".md5")
        (try_delete false (sidecar_name f) (try_delete true f run)))

  unfoldable pub delete_loop : List Bytes → Run → Run
  unfolding delete_one
  delete_loop [] run = run
  delete_loop (f ∷ fs) run = delete_loop fs (delete_one f run)

  unfoldable pub delete_backups : List Bytes → State → Run
  unfolding delete_loop
  delete_backups fs s = delete_loop fs ([], s)

  -- The four paths that belong to a backup.
  abbrev pub targets : Bytes → List Bytes
  targets f = f ∷ sidecar_name f ∷ (f ++ codes ".md5") ∷ (f ++ codes ".sha1") ∷ []
