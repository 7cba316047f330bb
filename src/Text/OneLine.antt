-- ===== src/Text/OneLine.antt =====
-- Texts without a line feed, and the lines of a text.
use db_backup.Base.{◌≡◌, refl, false, [], ◌∷◌, ◌++◌, Bytes, ◌==◌, All}
use db_backup.Text.{split}

abbrev pub IsOneLine : Bytes → Type 0
IsOneLine l = All (λ c. (c == 10) ≡ false) l

pub split-line : (l rest : Bytes) → IsOneLine l → split (l ++ 10 ∷ rest) 10 ≡ l ∷ split rest 10
unfolding split
split-line [] rest h = refl
split-line (c ∷ l) rest (h, hs) = rw (h, split-line l rest hs) refl
