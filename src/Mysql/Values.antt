-- ===== src/Mysql/Values.antt =====
-- Rows of values and the head of an INSERT statement: one line each, behind which the splitter is neutral.
use db_backup.Base.{
  ℕ, ◌+◌, ◌/◌, ◌%◌, ◌<◌, ◌≡◌, ◌≢◌, refl, sym, ap, ◌∙◌, subst, Bool, true, false, ◌&&◌, ◌||◌, List,
  [], ◌∷◌, ◌++◌, append_assoc, map, Bytes, codes, ◌==◌, leb, All, All_get, All-intro, All-append,
  arith, ℤ, pos, negsuc,
}
use db_backup.Text.{replace_byte, join, is_digit}
use db_backup.Text.OneLine.{IsOneLine}
use db_backup.Clock.{decimal}
use db_backup.Clock.ReadBack.{decimal-IsDigits, decimal-filled}
use db_backup.Mysql.Splitter.{neutral, scan}
use db_backup.Mysql.Rows.{
  escape_string, escape_blob, quote_mysql_ident, hex, hex_digit, signed, Value, null, bytes, int64,
  float64, bool, text, literal, write_value, write_row,
}
use db_backup.Mysql.Literals.{
  PassesIn, PassesIn-append, Closes, literal-Closes, escape_string-PassesIn, escape_blob-PassesIn,
  IsCalm, is_calm, IsCalm-PassesIn, quote_mysql_ident-PassesIn, replaced_ident,
  escape_string-append, escape_blob-append, escape_string-nil, escape_blob-nil,
}

-- A letter or a digit.
abbrev is_word : ℕ → Bool
is_word c = (leb 48 c && leb c 57) || (leb 65 c && leb c 90) || (leb 97 c && leb c 122)

IsWord-IsCalm : (t : Bytes) → All (λ c. is_word c ≡ true) t → IsCalm t
IsWord-IsCalm [] h = tt
IsWord-IsCalm (c ∷ []) (h, _) = ground (arith, h)
IsWord-IsCalm (c ∷ d ∷ s) (h, hs) = (ground (arith, h), ground (arith, h), IsWord-IsCalm (d ∷ s) hs)

hex_digit-word : (n : ℕ) → n < 16 → is_word (hex_digit n) ≡ true
hex_digit-word n h = ground (arith, h)

hex-IsWord : (s : Bytes) → All (λ c. is_word c ≡ true) (hex s)
unfolding hex
hex-IsWord [] = tt
hex-IsWord (c ∷ s) = (
  hex_digit-word (c / 16 % 16) (omega arith),
  (hex_digit-word (c % 16) (omega arith), hex-IsWord s),
)

word_of_digit : (c : ℕ) → is_digit c ≡ true → is_word c ≡ true
unfolding is_digit
word_of_digit c h = ground (arith, h)

decimal-IsWord : (n : ℕ) → All (λ c. is_word c ≡ true) (decimal n)
decimal-IsWord n =
    All-intro _ (decimal n) (λ c i. word_of_digit c (All_get _ (decimal n) (decimal-IsDigits n) i))

minus-IsCalm : (t : Bytes) → t ≢ [] → All (λ c. is_word c ≡ true) t → IsCalm (b'-' ∷ t)
minus-IsCalm [] h w = absurd (h refl)
minus-IsCalm (c ∷ t) h (w, ws) = (refl, ground (arith, w), IsWord-IsCalm (c ∷ t) (w, ws))

decimal_not_nil : (n : ℕ) → decimal n ≢ []
decimal_not_nil n = λ h. apart n h (decimal-filled n)
  where
    apart : (n : ℕ) → decimal n ≡ [] → (d : ℕ) × (t : Bytes) × (decimal n ≡ d ∷ t) → ⊥
    apart n h (d, t, e) = cc

signed-IsCalm : (n : ℤ) → IsCalm (signed n)
unfolding signed
signed-IsCalm (pos n) = IsWord-IsCalm (decimal n) (decimal-IsWord n)
signed-IsCalm (negsuc n) =
    minus-IsCalm (decimal (n + 1)) (decimal_not_nil (n + 1)) (decimal-IsWord (n + 1))

-- `%v` prints a float in digits, letters, a point and signs.
abbrev pub IsValue : Value → Type 0
IsValue (float64 v) = IsCalm v
IsValue _ = Unit

calm-Closes : (t : Bytes) → IsCalm t → Closes t
calm-Closes t h rest k = IsCalm-PassesIn t h rest

pub write_value-Closes : (raw : Bool) (v : Value) → IsValue v → Closes (write_value raw v)
unfolding write_value
write_value-Closes raw null h = calm-Closes (codes "NULL") (ground arith)
write_value-Closes false (bytes true s) h =
    calm-Closes (codes "0x" ++ hex s)
      (IsWord-IsCalm (codes "0x" ++ hex s) (refl, (refl, hex-IsWord s)))
write_value-Closes true (bytes true s) h = literal-Closes _ (escape_blob-PassesIn s)
write_value-Closes false (bytes false s) h = literal-Closes _ (escape_string-PassesIn s)
write_value-Closes true (bytes false s) h = literal-Closes _ (escape_string-PassesIn s)
write_value-Closes raw (int64 n) h = calm-Closes (signed n) (signed-IsCalm n)
write_value-Closes raw (float64 v) h = calm-Closes v h
write_value-Closes raw (bool true) h = calm-Closes (codes "1") (ground arith)
write_value-Closes raw (bool false) h = calm-Closes (codes "0") (ground arith)
write_value-Closes raw (text s) h = literal-Closes _ (escape_string-PassesIn s)

calm_one_line : (c : ℕ) → is_calm c ≡ true → (c == 10) ≡ false
calm_one_line c h = ground (arith, h)

IsCalm-IsOneLine : (t : Bytes) → IsCalm t → IsOneLine t
IsCalm-IsOneLine [] h = tt
IsCalm-IsOneLine (c ∷ []) (h, _) = (calm_one_line c h, tt)
IsCalm-IsOneLine (c ∷ d ∷ s) (h, _, hs) = (calm_one_line c h, IsCalm-IsOneLine (d ∷ s) hs)

escape_string-char_IsOneLine : (c : ℕ) → IsOneLine (escape_string (c ∷ []))
unfolding escape_string replace_byte
escape_string-char_IsOneLine c = ground arith

escape_blob-char_IsOneLine : (c : ℕ) → IsOneLine (escape_blob (c ∷ []))
unfolding escape_blob escape_string replace_byte
escape_blob-char_IsOneLine c = ground arith

escape_string-IsOneLine : (s : Bytes) → IsOneLine (escape_string s)
escape_string-IsOneLine [] = subst IsOneLine (sym escape_string-nil) tt
escape_string-IsOneLine (c ∷ s) =
    subst IsOneLine (sym (escape_string-append (c ∷ []) s))
      (All-append _ _ _ (escape_string-char_IsOneLine c) (escape_string-IsOneLine s))

escape_blob-IsOneLine : (s : Bytes) → IsOneLine (escape_blob s)
escape_blob-IsOneLine [] = subst IsOneLine (sym escape_blob-nil) tt
escape_blob-IsOneLine (c ∷ s) =
    subst IsOneLine (sym (escape_blob-append (c ∷ []) s))
      (All-append _ _ _ (escape_blob-char_IsOneLine c) (escape_blob-IsOneLine s))

literal-IsOneLine : (s : Bytes) → IsOneLine s → IsOneLine (literal s)
literal-IsOneLine s h = (refl, All-append _ s (39 ∷ []) h (refl, tt))

write_value-IsOneLine : (raw : Bool) (v : Value) → IsValue v → IsOneLine (write_value raw v)
unfolding write_value
write_value-IsOneLine raw null h = ground arith
write_value-IsOneLine false (bytes true s) h =
    IsCalm-IsOneLine (codes "0x" ++ hex s)
      (IsWord-IsCalm (codes "0x" ++ hex s) (refl, (refl, hex-IsWord s)))
write_value-IsOneLine true (bytes true s) h = literal-IsOneLine _ (escape_blob-IsOneLine s)
write_value-IsOneLine false (bytes false s) h = literal-IsOneLine _ (escape_string-IsOneLine s)
write_value-IsOneLine true (bytes false s) h = literal-IsOneLine _ (escape_string-IsOneLine s)
write_value-IsOneLine raw (int64 n) h = IsCalm-IsOneLine (signed n) (signed-IsCalm n)
write_value-IsOneLine raw (float64 v) h = IsCalm-IsOneLine v h
write_value-IsOneLine raw (bool true) h = ground arith
write_value-IsOneLine raw (bool false) h = ground arith
write_value-IsOneLine raw (text s) h = literal-IsOneLine _ (escape_string-IsOneLine s)

abbrev pub separator : Bytes
separator = codes ", "

-- Values, the separators between them and the closing bracket.
values-PassesIn :
    (raw : Bool) (vs : List Value)
    → All IsValue vs
    → PassesIn neutral (join (map (write_value raw) vs) separator ++ b')' ∷ [])
unfolding join
values-PassesIn raw [] h rest = IsCalm-PassesIn (b')' ∷ []) (ground arith) rest
values-PassesIn raw (v ∷ []) (h, _) rest =
    ap (scan false neutral) (append_assoc (write_value raw v) (b')' ∷ []) rest)
    ∙ write_value-Closes raw v h (b')' ∷ rest) refl
    ∙ IsCalm-PassesIn (b')' ∷ []) (ground arith) rest
values-PassesIn raw (v ∷ w ∷ vs) (h, hs) rest =
    ap (scan false neutral)
      (regroup (write_value raw v) (join (map (write_value raw) (w ∷ vs)) separator))
    ∙ write_value-Closes raw v h _ refl
    ∙ IsCalm-PassesIn separator (ground arith) _
    ∙ values-PassesIn raw (w ∷ vs) hs rest
  where
    regroup :
        (a b : Bytes)
        → ((a ++ separator) ++ b ++ b')' ∷ []) ++ rest
          ≡ a ++ (separator ++ (b ++ b')' ∷ [] ++ rest))
    regroup a b = simp append_assoc

pub join-IsOneLine : (ts : List Bytes) → All IsOneLine ts → IsOneLine (join ts separator)
unfolding join
join-IsOneLine [] h = tt
join-IsOneLine (t ∷ []) (h, _) = h
join-IsOneLine (t ∷ u ∷ ts) (h, hs) =
    All-append _ (t ++ separator) _ (All-append _ t separator h (refl, (refl, tt)))
      (join-IsOneLine (u ∷ ts) hs)

values-IsOneLine :
    (raw : Bool) (vs : List Value) → All IsValue vs → All IsOneLine (map (write_value raw) vs)
values-IsOneLine raw [] h = tt
values-IsOneLine raw (v ∷ vs) (h, hs) = (write_value-IsOneLine raw v h, values-IsOneLine raw vs hs)

pub write_row-PassesIn :
    (raw : Bool) (vs : List Value) → All IsValue vs → PassesIn neutral (write_row raw vs)
unfolding write_row
write_row-PassesIn raw vs h =
    PassesIn-append neutral (b'(' ∷ []) _ (IsCalm-PassesIn (b'(' ∷ []) (ground arith))
      (values-PassesIn raw vs h)

pub write_row-IsOneLine :
    (raw : Bool) (vs : List Value) → All IsValue vs → IsOneLine (write_row raw vs)
unfolding write_row
write_row-IsOneLine raw vs h =
    (refl, All-append _ _ (b')' ∷ []) (join-IsOneLine _ (values-IsOneLine raw vs h)) (refl, tt))

replaced_ident-IsOneLine : (s : Bytes) → IsOneLine s → IsOneLine (replaced_ident s)
unfolding replaced_ident replace_byte
replaced_ident-IsOneLine [] h = tt
replaced_ident-IsOneLine (c ∷ s) (h, hs) = ground (arith, h, replaced_ident-IsOneLine s hs)

pub quote_mysql_ident-IsOneLine : (s : Bytes) → IsOneLine s → IsOneLine (quote_mysql_ident s)
unfolding quote_mysql_ident replaced_ident
quote_mysql_ident-IsOneLine s h =
    (refl, All-append _ _ (96 ∷ []) (replaced_ident-IsOneLine s h) (refl, tt))

pub names-IsOneLine :
    (cols : List Bytes) → All IsOneLine cols → All IsOneLine (map quote_mysql_ident cols)
names-IsOneLine [] h = tt
names-IsOneLine (c ∷ cols) (h, hs) = (quote_mysql_ident-IsOneLine c h, names-IsOneLine cols hs)

pub names-PassesIn :
    (cols : List Bytes) → PassesIn neutral (join (map quote_mysql_ident cols) separator)
unfolding join
names-PassesIn [] rest = refl
names-PassesIn (c ∷ []) rest = quote_mysql_ident-PassesIn c rest
names-PassesIn (c ∷ d ∷ cols) rest =
    PassesIn-append neutral (quote_mysql_ident c ++ separator) _
      (PassesIn-append neutral (quote_mysql_ident c) separator (quote_mysql_ident-PassesIn c)
        (IsCalm-PassesIn separator (ground arith)))
      (names-PassesIn (d ∷ cols)) rest
