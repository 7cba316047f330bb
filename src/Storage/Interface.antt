-- ===== src/Storage/Interface.antt =====
-- `Upload`, `Download`, `List` and `Delete`, with the laws that clients rely on. `content` is the
-- view of the files; a failed `Delete` changes nothing, a failed `Upload` may leave anything under the
-- path that it was to write, and a `Download` that succeeds gives what the path holds.
use db_backup.Base.{◌≡◌, ◌≢◌, Option, none, some, List, Bytes, ℤ}

-- `Entry`
pub record Entry : Type 0 where
  pub path : Bytes
  pub size : ℤ
  pub mod_time : ℤ

-- What a call that can fail reports; `not_exist` is an error that `os.IsNotExist` recognises.
pub data Status : Type 0 where
  done : Status
  not_exist : Status
  failed : Status

pub record Storage : Type 1 where
  pub State : Type 0
  pub content : State → Bytes → Option Bytes
  pub upload : Bytes → Bytes → State → Status × State
  pub download : Bytes → State → Option Bytes
  pub list : Bytes → State → Option (List Entry)
  pub delete : Bytes → State → Status × State
  pub download_some : (p c : Bytes) (s : State) → download p s ≡ some c → content s p ≡ some c
  pub upload_done :
      (p c : Bytes) (s : State) → (upload p c s).0 ≡ done → content (upload p c s).1 p ≡ some c
  pub upload_frame : (p c q : Bytes) (s : State) → q ≢ p → content (upload p c s).1 q ≡ content s q
  pub delete_done :
      (p : Bytes) (s : State) → (delete p s).0 ≡ done → content (delete p s).1 p ≡ none
  pub delete_missing :
      (p : Bytes) (s : State) → (delete p s).0 ≡ not_exist → content (delete p s).1 p ≡ none
  pub delete_failed :
      (p q : Bytes) (s : State) → (delete p s).0 ≡ failed → content (delete p s).1 q ≡ content s q
  pub delete_frame : (p q : Bytes) (s : State) → q ≢ p → content (delete p s).1 q ≡ content s q
