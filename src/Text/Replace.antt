-- ===== src/Text/Replace.antt =====
-- `strings.ReplaceAll(s, c, by)` for a single byte.
use db_backup.Base.{ℕ, ◌≡◌, refl, [], ◌∷◌, ◌++◌, append_assoc, Bytes, ◌==◌, if◌then◌else◌}

abbrev replace_one : ℕ → ℕ → Bytes → Bytes
replace_one d c by = if d == c then by else d ∷ []

unfoldable pub replace_byte : Bytes → ℕ → Bytes → Bytes
replace_byte [] c by = []
replace_byte (d ∷ s) c by = replace_one d c by ++ replace_byte s c by

pub replace_byte-append :
    (s t : Bytes) (c : ℕ) (by : Bytes)
    → replace_byte (s ++ t) c by ≡ replace_byte s c by ++ replace_byte t c by
unfolding replace_byte
replace_byte-append [] t c by = refl
replace_byte-append (d ∷ s) t c by = simp (replace_byte-append s t c by, append_assoc)
