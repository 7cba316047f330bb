-- ===== src/Archive/Choice.antt =====
-- Which files are chosen, and what is reported of them.
use db_backup.Base.{
  ℕ, zero, suc, ◌+◌, ◌≤◌, ◌≡◌, refl, ◌∙◌, ap, Bool, true, false, List, [], ◌∷◌, ◌++◌, append_assoc,
  append-nil, none, some, Bytes, codes, length, ℤ, leb, leb_ℤ, take, drop, map, All, inl, inr,
  Bool-cases, arith, ◌-ℤ◌,
}
use db_backup.SortSlice.{SortSlice, IsOrdered}
use db_backup.Storage.Interface.{Entry, Storage}
use db_backup.Retention.Prune.Delete.{sidecar_name}
use db_backup.Retention.Policy.{is_positive}
use db_backup.Archive.Move.{
  Places, BackupFile, MoveResult, finished, move_file, move_companions, archive_loop, run_archive,
  backup_files, keep_count, count_young, newest, newest-IsStrictWeak,
}

old_rest :
    (cutoff : ℤ) (b : BackupFile) (bs : List BackupFile)
    → leb_ℤ cutoff b.mod_time ≡ false
    → All (λ x. newest x b ≡ false) bs
    → All (λ x. leb_ℤ cutoff x.mod_time ≡ false) bs
old_rest cutoff b [] h a = tt
old_rest cutoff b (x ∷ bs) h (n, a) = (ground arith, old_rest cutoff b bs h a)

-- In a sorted listing the loop stops at the first file that is too old, and so are all behind it.
count_young_split :
    (cutoff : ℤ) (bs : List BackupFile)
    → IsOrdered newest bs
    → All (λ x. leb_ℤ cutoff x.mod_time ≡ true) (take (count_young cutoff bs) bs)
      × All (λ x. leb_ℤ cutoff x.mod_time ≡ false) (drop (count_young cutoff bs) bs)
unfolding count_young
count_young_split cutoff [] o = (tt, tt)
count_young_split cutoff (b ∷ bs) (first, o) = elim (Bool-cases (leb_ℤ cutoff b.mod_time)) [
  | inl young ↦
      let (t, d) = count_young_split cutoff bs o in rw (young, count_young) ((young, t), d)
  | inr old ↦ rw (old, count_young) (tt, (old, old_rest cutoff b bs old first))
]

-- With a positive `within`, the files that stay are those as young as the window, and the files to
-- archive are all the others, for every order that the sort gives to files of one age.
pub keep_count_within :
    (sorter : SortSlice) (last within now : ℤ) (bs : List BackupFile)
    → is_positive within ≡ true
    → All
        (λ x. leb_ℤ (now -ℤ within) x.mod_time ≡ true)
        (take
          (keep_count last within now (sorter.sort BackupFile newest bs))
          (sorter.sort BackupFile newest bs))
      × All
          (λ x. leb_ℤ (now -ℤ within) x.mod_time ≡ false)
          (drop
            (keep_count last within now (sorter.sort BackupFile newest bs))
            (sorter.sort BackupFile newest bs))
unfolding keep_count
keep_count_within sorter last within now bs w = rw w (
    count_young_split (now -ℤ within) (sorter.sort BackupFile newest bs)
      (sorter.ordered BackupFile newest bs newest-IsStrictWeak))

drop_all {ℓ} : {A : Type ℓ} (n : ℕ) (xs : List A) → length xs ≤ n → drop n xs ≡ []
drop_all zero [] h = refl
drop_all zero (x ∷ xs) h = elim h [ ]
drop_all (suc n) [] h = refl
drop_all (suc n) (x ∷ xs) h = drop_all n xs (omega arith)

-- The files that are to be archived.
abbrev pub chosen : SortSlice → (Bytes → Bool) → ℤ → ℤ → ℤ → List Entry → List BackupFile
chosen sorter is_backup_file last within now entries =
    let sorted = sorter.sort BackupFile newest (backup_files is_backup_file entries) in
    drop (keep_count last within now sorted) sorted

module _ (src dst : Storage) (places : Places src dst)
    (unreadable : (path : Bytes) (s : Storage.State src) → src.download path s ≡ none) where
  move_file_unreadable :
      (path : Bytes) (p : places.Both) → move_file src dst places path p ≡ (MoveResult.moved, p)
  unfolding move_file
  move_file_unreadable [] p = refl
  move_file_unreadable (h ∷ t) p = rw (unreadable (h ∷ t) (places.hot p), move_file)

  move_companions_unreadable :
      (path : Bytes) (p : places.Both) → move_companions src dst places path p ≡ p
  unfolding move_companions
  move_companions_unreadable path p =
      let still : (f : Bytes) → (move_file src dst places f p).1 ≡ p =
        λ f. ap (λ r. r.1) (move_file_unreadable f p) in
      ap
        (λ r.
          (move_file src dst places (path ++ codes ".sha1")
            (move_file src dst places (path ++ codes ".md5") r).1).1)
        (still (sidecar_name path))
      ∙ (ap (λ r. (move_file src dst places (path ++ codes ".sha1") r).1)
            (still (path ++ codes ".md5"))
          ∙ still (path ++ codes ".sha1"))

  loop_unreadable :
      (count : ℕ) (candidates : List Bytes) (bs : List BackupFile) (p : places.Both)
      → archive_loop src dst places count candidates bs p
        ≡ (finished (count + length bs) (candidates ++ map (λ b. b.path) bs), p)
  unfolding archive_loop
  loop_unreadable count candidates [] p =
      let e : count ≡ count + 0 = omega arith in cc (e, append-nil candidates)
  loop_unreadable count candidates (b ∷ bs) p =
      let e : count + 1 + length bs ≡ count + suc (length bs) = omega arith in
      let after : move_companions src dst places b.path (move_file src dst places b.path p).1 ≡ p =
        ap (λ r. move_companions src dst places b.path r.1) (move_file_unreadable b.path p)
        ∙ move_companions_unreadable b.path p in
      rw (move_file_unreadable b.path p, archive_loop)
        (rw after
          (rw (loop_unreadable (count + 1) (candidates ++ b.path ∷ []) bs p, e, append_assoc)))

  -- Where no file can be downloaded, nothing is moved, and yet every candidate is counted as moved.
  pub run_archive_unreadable :
      (sorter : SortSlice) (is_backup_file : Bytes → Bool) (last within now : ℤ) (p : places.Both)
      (entries : List Entry)
      → src.list [] (places.hot p) ≡ some entries
      → run_archive src dst places sorter is_backup_file last within now p ≡ (
        finished
            (length (chosen sorter is_backup_file last within now entries))
            (map (λ b. b.path) (chosen sorter is_backup_file last within now entries)),
        p,
      )
  unfolding run_archive
  run_archive_unreadable sorter is_backup_file last within now p entries e =
      let sorted = sorter.sort BackupFile newest (backup_files is_backup_file entries) in
      let keep = keep_count last within now sorted in
      elim (Bool-cases (leb (length sorted) keep)) [
        | inl few ↦ rw (e, few, run_archive, drop_all keep sorted (ground arith))
        | inr more ↦
            let n : 0 + length (drop keep sorted) ≡ length (drop keep sorted) = omega arith in
            rw (e, more, run_archive)
              (loop_unreadable 0 [] (drop keep sorted) p
                ∙ ap (λ k. (finished k (map (λ b. b.path) (drop keep sorted)), p)) n)
      ]
