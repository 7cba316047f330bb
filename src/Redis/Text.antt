-- ===== src/Redis/Text.antt =====
-- The text of a dump, and the loop of the restore over its lines.
use db_backup.Base.{
  ℕ, ◌-◌, ◌≡◌, refl, ap, ◌∙◌, Bool, true, false, List, [], ◌∷◌, ◌++◌, some, Bytes, leb,
  if◌then◌else◌, length, take, All, arith,
}
use db_backup.Text.{trim_space, trim_suffix, has_suffix, has_suffix-last, split}
use db_backup.Text.OneLine.{IsOneLine, split-line}
use db_backup.Redis.Lines.{is_graphic}
use db_backup.Redis.Reads.{IsReadAs, IsKept}
use db_backup.Redis.Expiry.{AreReadAs}
use db_backup.Redis.Data.{Command, Codec}
use db_backup.Redis.Session.{
  Progress, is_ignored, raw_lines, drop_last_empty, max_token, try_command, attempt, restore_scan,
}

-- The lines as `Fprintln` leaves them in the file.
abbrev pub text_of : List Bytes → Bytes
text_of [] = []
text_of (l ∷ ls) = l ++ 10 ∷ text_of ls

split-text_of : (ls : List Bytes) → All IsOneLine ls → split (text_of ls) 10 ≡ ls ++ [] ∷ []
unfolding split
split-text_of [] h = refl
split-text_of (l ∷ ls) (h, hs) = split-line l (text_of ls) h ∙ ap (λ r. l ∷ r) (split-text_of ls hs)

drop_last_empty-append : (ls : List Bytes) → drop_last_empty (ls ++ [] ∷ []) ≡ ls
unfolding drop_last_empty
drop_last_empty-append [] = refl
drop_last_empty-append ([] ∷ []) = refl
drop_last_empty-append ((c ∷ l) ∷ []) = refl
drop_last_empty-append ([] ∷ m ∷ ls) = ap (λ r. [] ∷ r) (drop_last_empty-append (m ∷ ls))
drop_last_empty-append ((c ∷ l) ∷ m ∷ ls) = ap (λ r. (c ∷ l) ∷ r) (drop_last_empty-append (m ∷ ls))

pub raw_lines-text_of : (ls : List Bytes) → All IsOneLine ls → raw_lines (text_of ls) ≡ ls
unfolding raw_lines
raw_lines-text_of ls h = ap drop_last_empty (split-text_of ls h) ∙ drop_last_empty-append ls

has_suffix-graphic :
    (front : Bytes) (d : ℕ) → is_graphic d ≡ true → has_suffix (front ++ d ∷ []) (13 ∷ []) ≡ false
has_suffix-graphic front d h = has_suffix-last front d 13 ∙ ground (arith, h)

trim_suffix-kept : (l : Bytes) → IsKept l → trim_suffix l (13 ∷ []) ≡ l
unfolding trim_suffix
trim_suffix-kept l k =
    ap (λ b. if b then take (length l - 1) l else l)
      (ap (λ s. has_suffix s (13 ∷ [])) k.ends ∙ has_suffix-graphic k.front k.final k.graphic)

-- A line that the loop passes over.
abbrev pub IsHeader : Bytes → Type 0
IsHeader l = is_ignored (trim_space (trim_suffix l (13 ∷ []))) ≡ true

abbrev pub Fits : Bytes → Type 0
Fits l = (leb max_token (length l)) ≡ false

module _ {Server : Type 0} {Score : Type 0} (exec : Command Score → Server → Server × Bool)
    (codec : Codec Score) where
  -- The commands are issued in order, whatever the server answers to each.
  abbrev pub issue : Progress Server → List (Command Score) → Progress Server
  issue p [] = p
  issue p (c ∷ cs) = issue (try_command exec p (some c)) cs

  attempt-read :
      (p : Progress Server) (l : Bytes) (c : Command Score)
      → IsReadAs Score codec l c
      → attempt exec codec p l ≡ try_command exec p (some c)
  unfolding attempt
  attempt-read p l c r =
      rw (trim_suffix-kept l r.kept, r.kept.trimmed, r.kept.regarded, r.splits)
        (ap (try_command exec p) r.reads)

  attempt-header : (p : Progress Server) (l : Bytes) → IsHeader l → attempt exec codec p l ≡ p
  unfolding attempt
  attempt-header p l h = rw h refl

  pub restore_scan-read :
      (ls : List Bytes) (cs : List (Command Score)) (p : Progress Server)
      → AreReadAs codec ls cs
      → All Fits ls
      → restore_scan exec codec max_token ls p ≡ (issue p cs, false)
  unfolding restore_scan
  restore_scan-read [] [] p h fits = refl
  restore_scan-read [] (c ∷ cs) p h fits = absurd h
  restore_scan-read (l ∷ ls) [] p h fits = absurd h
  restore_scan-read (l ∷ ls) (c ∷ cs) p (r, h) (fit, fits) =
      rw (fit, attempt-read p l c r) (restore_scan-read ls cs _ h fits)

  pub restore_scan-header :
      (p : Progress Server) (header ls : List Bytes)
      → All IsHeader header
      → All Fits header
      → restore_scan exec codec max_token (header ++ ls) p ≡ restore_scan exec codec max_token ls p
  unfolding restore_scan
  restore_scan-header p [] ls h fits = refl
  restore_scan-header p (l ∷ header) ls (h, hs) (fit, fits) =
      rw (fit, attempt-header p l h) (restore_scan-header p header ls hs fits)
