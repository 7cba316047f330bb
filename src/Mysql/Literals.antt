-- ===== src/Mysql/Literals.antt =====
-- What the splitter makes of the values and names in an INSERT statement: it is neutral behind them.
use db_backup.Base.{
  ℕ, ◌≡◌, refl, sym, ap, ◌∙◌, Bool, true, false, ◌&&◌, ◌||◌, not, [], ◌∷◌, ◌++◌, append_assoc,
  subst, Bytes, ◌==◌, leb, arith,
}
use db_backup.Text.{replace_byte, replace_byte-append}
use db_backup.Mysql.Splitter.{
  Mode, neutral, in_single, in_backtick, scan, scan_byte, starts_with_byte, dash_comment,
}
use db_backup.Mysql.Rows.{escape_string, escape_blob, quote_mysql_ident, literal}

-- The splitter passes through the text in this mode, whatever follows.
abbrev pub PassesIn : Mode → Bytes → Type 0
PassesIn mode t = (rest : Bytes) → scan false mode (t ++ rest) ≡ scan false mode rest

pub PassesIn-append :
    (mode : Mode) (t u : Bytes) → PassesIn mode t → PassesIn mode u → PassesIn mode (t ++ u)
PassesIn-append mode t u p q rest =
    ap (scan false mode) (append_assoc t u rest) ∙ p (u ++ rest) ∙ q rest

pub escape_string-append :
    (s t : Bytes) → escape_string (s ++ t) ≡ escape_string s ++ escape_string t
unfolding escape_string
escape_string-append s t = simp replace_byte-append

pub escape_blob-append : (s t : Bytes) → escape_blob (s ++ t) ≡ escape_blob s ++ escape_blob t
unfolding escape_blob
escape_blob-append s t = simp replace_byte-append

escape_string-one : (c : ℕ) → PassesIn in_single (escape_string (c ∷ []))
unfolding escape_string replace_byte scan scan_byte
escape_string-one c rest = ground arith

escape_blob-one : (c : ℕ) → PassesIn in_single (escape_blob (c ∷ []))
unfolding escape_blob escape_string replace_byte scan scan_byte
escape_blob-one c rest = ground arith

pub escape_string-nil : escape_string [] ≡ []
unfolding escape_string replace_byte
escape_string-nil = refl

pub escape_blob-nil : escape_blob [] ≡ []
unfolding escape_blob escape_string replace_byte
escape_blob-nil = refl

pub escape_string-PassesIn : (s : Bytes) → PassesIn in_single (escape_string s)
escape_string-PassesIn [] = subst (PassesIn in_single) (sym escape_string-nil) (λ rest. refl)
escape_string-PassesIn (c ∷ s) =
    subst (PassesIn in_single) (sym (escape_string-append (c ∷ []) s))
      (PassesIn-append in_single _ _ (escape_string-one c) (escape_string-PassesIn s))

pub escape_blob-PassesIn : (s : Bytes) → PassesIn in_single (escape_blob s)
escape_blob-PassesIn [] = subst (PassesIn in_single) (sym escape_blob-nil) (λ rest. refl)
escape_blob-PassesIn (c ∷ s) =
    subst (PassesIn in_single) (sym (escape_blob-append (c ∷ []) s))
      (PassesIn-append in_single _ _ (escape_blob-one c) (escape_blob-PassesIn s))

-- The splitter is neutral behind the text if no quote follows, which would continue a literal.
abbrev pub Closes : Bytes → Type 0
Closes t =
    (rest : Bytes)
    → starts_with_byte rest 39 ≡ false
    → scan false neutral (t ++ rest) ≡ scan false neutral rest

pub close_quote :
    (rest : Bytes)
    → starts_with_byte rest 39 ≡ false
    → scan false in_single (39 ∷ rest) ≡ scan false neutral rest
unfolding scan scan_byte
close_quote rest h = rw h refl

pub literal-Closes : (s : Bytes) → PassesIn in_single s → Closes (literal s)
unfolding scan scan_byte
literal-Closes s p rest h =
    ap (scan false in_single) (append_assoc s (39 ∷ []) rest) ∙ p (39 ∷ rest) ∙ close_quote rest h

unfoldable pub replaced_ident : Bytes → Bytes
unfolding replace_byte
replaced_ident s = replace_byte s 96 (96 ∷ 96 ∷ [])

replaced_ident-PassesIn : (s : Bytes) → PassesIn in_backtick (replaced_ident s)
unfolding replaced_ident scan scan_byte
replaced_ident-PassesIn [] rest = refl
replaced_ident-PassesIn (c ∷ s) rest = ground (arith, replaced_ident-PassesIn s rest)

pub quote_mysql_ident-PassesIn : (s : Bytes) → PassesIn neutral (quote_mysql_ident s)
unfolding quote_mysql_ident replaced_ident scan scan_byte
quote_mysql_ident-PassesIn s rest =
    ap (scan false in_backtick) (append_assoc (replaced_ident s) (96 ∷ []) rest)
    ∙ replaced_ident-PassesIn s (96 ∷ rest)

-- A byte that opens nothing.
abbrev pub is_calm : ℕ → Bool
is_calm c = leb 32 c && not (c == 39 || c == 34 || c == 96 || c == b'#' || c == b'/')

-- A text of such bytes in which no dash is the last byte or stands before a dash.
abbrev pub IsCalm : Bytes → Type 0
IsCalm [] = Unit
IsCalm (c ∷ []) = (is_calm c ≡ true) × ((c == b'-') ≡ false)
IsCalm (c ∷ d ∷ s) = (is_calm c ≡ true) × (((c == b'-') && (d == b'-')) ≡ false) × IsCalm (d ∷ s)

pub calm_byte :
    (c : ℕ) (rest : Bytes)
    → is_calm c ≡ true
    → ((c == b'-') && dash_comment rest) ≡ false
    → scan false neutral (c ∷ rest) ≡ scan false neutral rest
unfolding scan scan_byte
calm_byte c rest h k = ground (arith, h, k)

single_dash :
    (c d : ℕ) (s : Bytes)
    → ((c == b'-') && (d == b'-')) ≡ false
    → ((c == b'-') && dash_comment (d ∷ s)) ≡ false
single_dash c d [] h = h
single_dash c d (e ∷ s) h = ground (arith, h)

pub IsCalm-PassesIn : (t : Bytes) → IsCalm t → PassesIn neutral t
IsCalm-PassesIn [] h rest = refl
IsCalm-PassesIn (c ∷ []) (h, k) rest = calm_byte c rest h (ground (arith, k))
IsCalm-PassesIn (c ∷ d ∷ s) (h, k, hs) rest =
    calm_byte c (d ∷ s ++ rest) h (single_dash c d (s ++ rest) k) ∙ IsCalm-PassesIn (d ∷ s) hs rest
