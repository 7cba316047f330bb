-- ===== src/Restore/Chain.antt =====
-- The part of `cmdRestore` in src/cmd/dbb/restore.go behind the flags: the chain of bases is read from
-- the sidecars, and its files are applied one after the other. `open_backup` stands for
-- `retention.OpenBackup`, which decrypts and decompresses with external libraries, and for the choice of
-- its keys and formats from sidecar, name and flags; `apply` is the engine's `RestoreTo`, which says
-- whether it has succeeded and gives the database as it leaves it, changed in part where it fails. Engines
-- with a restore of chains of their own, progress and output are left out.
use db_backup.Base.{
  ℕ, zero, suc, Bool, true, false, not, ◌&&◌, ◌||◌, List, [], ◌∷◌, Option, none, some, Bytes, codes,
  bytes_eq, if◌then◌else◌,
}
use db_backup.Text.{trim_suffix}
use db_backup.Storage.Interface.{Storage}
use db_backup.Retention.Listing.{Readers, read_sidecar}

module _ (st : Storage) (io : Readers) where
  open st use {State, download}

  abbrev pub sidecar_base : State → Bytes → Bytes
  sidecar_base s cur = elim (read_sidecar st io s cur) [ none ↦ [] | some sc ↦ sc.base ]

  -- `given` is the flag --base, which counts for the file itself.
  unfoldable pub next_base : Bytes → Bytes → State → Bytes → Bytes
  unfolding read_sidecar trim_suffix
  next_base given file s cur =
      trim_suffix
        (if bytes_eq cur file && not (bytes_eq given []) then given else sidecar_base s cur)
        (codes ".json")

  abbrev pub is_root : Bytes → Bytes → Bool
  is_root cur base = bytes_eq base [] || bytes_eq base cur

  unfoldable pub order_loop : Bytes → Bytes → State → ℕ → Bytes → List Bytes → List Bytes
  unfolding next_base
  order_loop given file s zero cur order = order
  order_loop given file s (suc rounds) cur order =
      let base = next_base given file s cur in
      elim (is_root cur base) [
        | true ↦ order
        | false ↦ order_loop given file s rounds base (base ∷ order)
      ]

  -- The loop has 64 rounds.
  unfoldable pub restore_order : Bytes → Bytes → State → List Bytes
  unfolding order_loop
  restore_order given file s = order_loop given file s 64 file (file ∷ [])

  module _ {Db : Type 0} (open_backup : Bytes → Bytes → Option Bytes)
      (apply : Bytes → Db → Bool × Db) where
    -- One file: whether it has been downloaded, opened and applied, and the database behind it.
    unfoldable pub restore_file : State → Bytes → Db → Bool × Db
    restore_file s f db = elim (download f s) [
      | none ↦ (false, db)
      | some c ↦ elim (open_backup f c) [ none ↦ (false, db) | some plain ↦ apply plain db ]
    ]

    -- Whether the restore has come to its end, and the database as it leaves it.
    unfoldable pub restore_files : State → List Bytes → Db → Bool × Db
    unfolding restore_file
    restore_files s [] db = (true, db)
    restore_files s (f ∷ fs) db =
        let rest = restore_files s fs (restore_file s f db).1 in
        if (restore_file s f db).0 then rest else (false, (restore_file s f db).1)

    unfoldable pub restore : Bytes → Bytes → State → Db → Bool × Db
    unfolding restore_files restore_order
    restore given file s db = restore_files s (restore_order given file s) db
