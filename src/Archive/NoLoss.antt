-- ===== src/Archive/NoLoss.antt =====
-- Archiving loses no file, whichever downloads, uploads and deletions fail.
use db_backup.Base.{
  ℕ, ◌+◌, ◌≡◌, ◌≢◌, refl, sym, subst, ◌∙◌, Bool, List, [], ◌∷◌, ◌++◌, none, some, Bytes, length, ℤ,
  leb, drop, Bool-cases, Option-cases, inl, inr, ◌⊎◌, bytes_eq, bytes_eq_sound, bytes_eq_iff,
}
use db_backup.SortSlice.{SortSlice}
use db_backup.Storage.Interface.{Status, done, not_exist, failed, Storage}
use db_backup.Retention.Prune.Delete.{sidecar_name}
use db_backup.Archive.Move.{
  Places, uploaded, deleted, BackupFile, MoveResult, moved, upload_failed, delete_failed, transfer,
  move_file, move_companions, archive_loop, run_archive, backup_files, keep_count, newest,
}

-- What is written to one storage is read there, and not seen in the other: the source and the
-- destination share no file.
pub record AreApart {src dst : Storage} (places : Places src dst) : Type 0 where
  pub hot_hot :
      (h : Storage.State src) (p : Places.Both places) → places.hot (places.put_hot h p) ≡ h
  pub cold_cold :
      (c : Storage.State dst) (p : Places.Both places) → places.cold (places.put_cold c p) ≡ c
  pub hot_cold :
      (c : Storage.State dst) (p : Places.Both places)
      → places.hot (places.put_cold c p) ≡ places.hot p
  pub cold_hot :
      (h : Storage.State src) (p : Places.Both places)
      → places.cold (places.put_hot h p) ≡ places.cold p

-- Two places beside each other.
abbrev pub side_by_side : (src dst : Storage) → Places src dst
side_by_side src dst = record {
  Both = Storage.State src × Storage.State dst;
  hot = λ p. p.0;
  cold = λ p. p.1;
  put_hot = λ h p. (h, p.1);
  put_cold = λ c p. (p.0, c);
}

pub side_by_side-AreApart : (src dst : Storage) → AreApart (side_by_side src dst)
side_by_side-AreApart src dst = record {
  hot_hot = λ h p. refl;
  cold_cold = λ c p. refl;
  hot_cold = λ c p. refl;
  cold_hot = λ h p. refl;
}

module _ (src dst : Storage) (places : Places src dst) (apart : AreApart places) (q c : Bytes) where
  open places use {Both, hot, cold, put_hot, put_cold}

  -- The file `q` with its content is in the source, or it is gone there and in the destination.
  abbrev pub Held : Both → Type 0
  Held p =
      (src.content (hot p) q ≡ some c)
      ⊎ (src.content (hot p) q ≡ none) × (dst.content (cold p) q ≡ some c)

  -- A transfer ends behind the upload, or behind the deletion as well.
  transfer_ends :
      (P : Both → Type 0) (path d : Bytes) (p : Both)
      → P (uploaded src dst places path d p)
      → P (deleted src dst places path (uploaded src dst places path d p))
      → P (transfer src dst places path d p).1
  unfolding transfer
  transfer_ends P path d p one two =
      by_status (dst.upload path d (cold p)).0
        (src.delete path (hot (uploaded src dst places path d p))).0 refl refl
    where
      by_status :
          (u r : Status)
          → (dst.upload path d (cold p)).0 ≡ u
          → (src.delete path (hot (uploaded src dst places path d p))).0 ≡ r
          → P (transfer src dst places path d p).1
      by_status done done eu er = rw (eu, er, transfer) two
      by_status done not_exist eu er = rw (eu, er, transfer) two
      by_status done failed eu er = rw (eu, er, transfer) two
      by_status not_exist r eu er = rw (eu, transfer) one
      by_status failed r eu er = rw (eu, transfer) one

  hot_same : (d : Bytes) (path : Bytes) (p : Both) → hot (uploaded src dst places path d p) ≡ hot p
  hot_same d path p = apart.hot_cold (dst.upload path d (cold p)).1 p

  uploaded-Held :
      (path d : Bytes) (p : Both) → q ≢ path → Held p → Held (uploaded src dst places path d p)
  uploaded-Held path d p n (inl h) = inl (rw (hot_same d path p) h)
  uploaded-Held path d p n (inr (g, h)) = inr (
    rw (hot_same d path p) g,
    rw (apart.cold_cold (dst.upload path d (cold p)).1 p)
        (dst.upload_frame path d q (cold p) n ∙ h),
  )

  deleted-Held :
      (path : Bytes) (p : Both) → q ≢ path → Held p → Held (deleted src dst places path p)
  deleted-Held path p n (inl h) =
      inl (rw (apart.hot_hot (src.delete path (hot p)).1 p) (src.delete_frame path q (hot p) n ∙ h))
  deleted-Held path p n (inr (g, h)) = inr (
    rw (apart.hot_hot (src.delete path (hot p)).1 p) (src.delete_frame path q (hot p) n ∙ g),
    rw (apart.cold_hot (src.delete path (hot p)).1 p) h,
  )

  transfer_other :
      (path d : Bytes) (p : Both) → q ≢ path → Held p → Held (transfer src dst places path d p).1
  transfer_other path d p n h =
      let one = uploaded-Held path d p n h in
      transfer_ends Held path d p one (deleted-Held path (uploaded src dst places path d p) n one)

  transfer_same :
      (p : Both) → src.content (hot p) q ≡ some c → Held (transfer src dst places q c p).1
  unfolding transfer
  transfer_same p h = by_status (dst.upload q c (cold p)).0 (src.delete q (hot p')).0 refl refl
    where
      p' : Both
      p' = uploaded src dst places q c p

      here : src.content (hot p') q ≡ some c
      here = rw (hot_same c q p) h

      there :
          (dst.upload q c (cold p)).0 ≡ done
          → dst.content (cold (deleted src dst places q p')) q ≡ some c
      there eu =
          rw
            (
              apart.cold_hot (src.delete q (hot p')).1 p',
              apart.cold_cold (dst.upload q c (cold p)).1 p,
            )
            (dst.upload_done q c (cold p) eu)

      gone :
          src.content (src.delete q (hot p')).1 q ≡ none
          → src.content (hot (deleted src dst places q p')) q ≡ none
      gone e = rw (apart.hot_hot (src.delete q (hot p')).1 p') e

      by_status :
          (u r : Status)
          → (dst.upload q c (cold p)).0 ≡ u
          → (src.delete q (hot p')).0 ≡ r
          → Held (transfer src dst places q c p).1
      by_status done done eu er =
          rw (eu, er, transfer) (inr (gone (src.delete_done q (hot p') er), there eu))
      by_status done not_exist eu er =
          rw (eu, er, transfer) (inr (gone (src.delete_missing q (hot p') er), there eu))
      by_status done failed eu er =
          rw (eu, er, transfer)
            (inl (
              rw (apart.hot_hot (src.delete q (hot p')).1 p')
                (src.delete_failed q q (hot p') er ∙ here)))
      by_status not_exist r eu er = rw (eu, transfer) (inl here)
      by_status failed r eu er = rw (eu, transfer) (inl here)

  Held-downloaded : (p : Both) (d : Bytes) → Held p → src.content (hot p) q ≡ some d → d ≡ c
  Held-downloaded p d (inl h) e = cc
  Held-downloaded p d (inr (h, _)) e = cc

  move_file-Held : (path : Bytes) (p : Both) → Held p → Held (move_file src dst places path p).1
  unfolding move_file
  move_file-Held [] p h = h
  move_file-Held (x ∷ t) p h = elim (Option-cases (src.download (x ∷ t) (hot p))) [
    | inl fails ↦ rw (fails, move_file) h
    | inr (d, e) ↦ elim (Bool-cases (bytes_eq q (x ∷ t))) [
      | inl same ↦
          let path : q ≡ x ∷ t = bytes_eq_sound q (x ∷ t) same in
          let found : src.content (hot p) (x ∷ t) ≡ some d =
            src.download_some (x ∷ t) d (hot p) e in
          let here : src.content (hot p) q ≡ some d = rw path found in
          let whole : d ≡ c = Held-downloaded p d h here in
          rw (e, move_file)
            (subst (λ k. Held (transfer src dst places k d p).1) path
              (subst (λ k. Held (transfer src dst places q k p).1) (sym whole)
                (transfer_same p (rw whole at here))))
      | inr other ↦
          rw (e, move_file)
            (transfer_other (x ∷ t) d p (λ k. cc ((bytes_eq_iff q (x ∷ t)).1 k, other)) h)
    ]
  ]

  move_companions-Held :
      (path : Bytes) (p : Both) → Held p → Held (move_companions src dst places path p)
  unfolding move_companions
  move_companions-Held path p h =
      move_file-Held _ _ (move_file-Held _ _ (move_file-Held (sidecar_name path) p h))

  archive_loop-Held :
      (count : ℕ) (candidates : List Bytes) (bs : List BackupFile) (p : Both)
      → Held p
      → Held (archive_loop src dst places count candidates bs p).1
  unfolding archive_loop
  archive_loop-Held count candidates [] p h = h
  archive_loop-Held count candidates (b ∷ bs) p h =
      let h' = move_file-Held b.path p h in
      by_result (move_file src dst places b.path p).0 refl h' (
        archive_loop-Held (count + 1) (candidates ++ b.path ∷ []) bs _
          (move_companions-Held b.path _ h'))
    where
      by_result :
          (r : MoveResult)
          → (move_file src dst places b.path p).0 ≡ r
          → Held (move_file src dst places b.path p).1
          → Held
              (archive_loop src dst places
                (count + 1)
                (candidates ++ b.path ∷ [])
                bs
                (move_companions src dst places b.path (move_file src dst places b.path p).1)).1
          → Held (archive_loop src dst places count candidates (b ∷ bs) p).1
      by_result moved e now later = rw (e, archive_loop) later
      by_result upload_failed e now later = rw (e, archive_loop) now
      by_result delete_failed e now later = rw (e, archive_loop) now

-- With a source and a destination that share no file, a file of the source is still there with its
-- content after the run, or it is gone there and in the destination with that content, whichever
-- operations fail and wherever the run stops.
pub run_archive-no_loss :
    (src dst : Storage) (places : Places src dst) (sorter : SortSlice)
    (is_backup_file : Bytes → Bool) (last within now : ℤ) (p : places.Both) (q c : Bytes)
    → AreApart places
    → src.content (places.hot p) q ≡ some c
    → (src.content
          (places.hot (run_archive src dst places sorter is_backup_file last within now p).1)
          q
        ≡ some c)
      ⊎ (src.content
            (places.hot (run_archive src dst places sorter is_backup_file last within now p).1)
            q
          ≡ none)
        × (dst.content
              (places.cold (run_archive src dst places sorter is_backup_file last within now p).1)
              q
            ≡ some c)
unfolding run_archive
run_archive-no_loss src dst places sorter is_backup_file last within now p q c apart h =
    elim (Option-cases (src.list [] (places.hot p))) [
      | inl fails ↦ rw (fails, run_archive) (inl h)
      | inr (entries, e) ↦
          let sorted = sorter.sort BackupFile newest (backup_files is_backup_file entries) in
          let keep = keep_count last within now sorted in
          elim (Bool-cases (leb (length sorted) keep)) [
            | inl few ↦ rw (e, few, run_archive) (inl h)
            | inr more ↦
                rw (e, more, run_archive)
                  (archive_loop-Held src dst places apart q c 0 [] (drop keep sorted) p (inl h))
          ]
    ]
