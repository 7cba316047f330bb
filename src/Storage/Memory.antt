-- ===== src/Storage/Memory.antt =====
-- A backend in memory in which chosen paths refuse to be deleted or written: it meets the laws of
-- the interface, and serves as the concrete storage of the examples.
use db_backup.Base.{
  ◌≡◌, ◌≢◌, refl, Option, none, some, List, [], ◌∷◌, Bytes, bytes_eq, bytes_eq_iff, mem,
  if◌then◌else◌, arith, pos, map,
}
use db_backup.Storage.Interface.{Status, done, not_exist, failed, Storage}

abbrev pub Files : Type 0
Files = List (Bytes × Bytes)

abbrev pub find : Files → Bytes → Option Bytes
find [] p = none
find ((q, c) ∷ fs) p = if bytes_eq p q then some c else find fs p

abbrev remove : Bytes → Files → Files
remove p [] = []
remove p ((q, c) ∷ fs) = if bytes_eq p q then remove p fs else (q, c) ∷ remove p fs

find-remove_self : (p : Bytes) (fs : Files) → find (remove p fs) p ≡ none
find-remove_self p [] = refl
find-remove_self p ((q, c) ∷ fs) = ground (arith, find-remove_self p fs)

find-remove_ne : (p q : Bytes) (fs : Files) → q ≢ p → find (remove p fs) q ≡ find fs q
find-remove_ne p q [] n = refl
find-remove_ne p q ((r, c) ∷ fs) n =
    ground (arith, find-remove_ne p q fs n, bytes_eq_iff p r, bytes_eq_iff q r)

module _ (stuck : List Bytes) where
  abbrev remove_file : Bytes → Files → Status × Files
  remove_file p fs =
      if mem p stuck
      then (failed, fs)
      else elim (find fs p) [ none ↦ (not_exist, fs) | some c ↦ (done, remove p fs) ]

  abbrev write_file : Bytes → Bytes → Files → Status × Files
  write_file p c fs = if mem p stuck then (failed, fs) else (done, (p, c) ∷ fs)

  pub write_done :
      (p c : Bytes) (fs : Files)
      → (write_file p c fs).0 ≡ done
      → find (write_file p c fs).1 p ≡ some c
  write_done p c fs h = ground (arith, bytes_eq_iff p p)

  pub write_frame : (p c q : Bytes) (fs : Files) → q ≢ p → find (write_file p c fs).1 q ≡ find fs q
  write_frame p c q fs n = ground (arith, bytes_eq_iff q p)

  pub remove_done :
      (p : Bytes) (fs : Files) → (remove_file p fs).0 ≡ done → find (remove_file p fs).1 p ≡ none
  remove_done p fs h = ground (arith, find-remove_self p fs)

  pub remove_missing :
      (p : Bytes) (fs : Files)
      → (remove_file p fs).0 ≡ not_exist
      → find (remove_file p fs).1 p ≡ none
  remove_missing p fs h = ground arith

  pub remove_failed :
      (p q : Bytes) (fs : Files)
      → (remove_file p fs).0 ≡ failed
      → find (remove_file p fs).1 q ≡ find fs q
  remove_failed p q fs h = ground arith

  pub remove_frame : (p q : Bytes) (fs : Files) → q ≢ p → find (remove_file p fs).1 q ≡ find fs q
  remove_frame p q fs n = ground (arith, find-remove_ne p q fs n)

  abbrev pub memory : Storage
  memory = record {
    State = Files;
    content = find;
    upload = write_file;
    download = λ p fs. find fs p;
    list = λ prefix fs.
        some
          (map (λ (f : Bytes × Bytes). record { path = f.0; size = pos 0; mod_time = pos 0 }) fs);
    delete = remove_file;
    download_some = λ p c fs h. h;
    upload_done = write_done;
    upload_frame = write_frame;
    delete_done = remove_done;
    delete_missing = remove_missing;
    delete_failed = remove_failed;
    delete_frame = remove_frame;
  }
