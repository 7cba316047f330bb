-- ===== src/Text.antt =====
-- The functions of Go's `strings` and `strconv` packages that the modelled code calls, over bytes.
-- White space is the ASCII one; the code's inputs are ASCII where it trims or splits on it.
use mathlib.Core.List.{reverse, reverse-append, reverse-reverse}
mod Atoi
mod Replace
pub mod OneLine
unfoldable pub use Atoi.*
unfoldable pub use Replace.*
use db_backup.Base.{
  ◌≡◌, refl, sym, ap, ◌∙◌, ℕ, ◌-◌, ◌+◌, Bool, true, false, ◌&&◌, ◌||◌, List, [], ◌∷◌, ◌++◌, Option,
  none, some, Bytes, codes, ◌==◌, leb, ltb, if◌then◌else◌, length, take, drop, bytes_eq, mem,
  any_of, length-append, drop-append, arith,
}

unfoldable pub has_prefix : Bytes → Bytes → Bool
has_prefix s [] = true
has_prefix [] (p ∷ ps) = false
has_prefix (c ∷ s) (p ∷ ps) = c == p && has_prefix s ps

unfoldable pub has_suffix : Bytes → Bytes → Bool
unfolding bytes_eq
has_suffix s suf = leb (length suf) (length s) && bytes_eq (drop (length s - length suf) s) suf

unfoldable pub trim_suffix : Bytes → Bytes → Bytes
unfolding has_suffix
trim_suffix s suf = if has_suffix s suf then take (length s - length suf) s else s

-- `strings.Contains(s, c)` for a single byte.
unfoldable pub contains_byte : Bytes → ℕ → Bool
contains_byte [] c = false
contains_byte (d ∷ s) c = d == c || contains_byte s c

-- `strings.SplitN(s, sep, 2)`: the two parts around the first separator, `none` if there is none.
unfoldable pub cut : Bytes → ℕ → Option (Bytes × Bytes)
cut [] sep = none
cut (c ∷ s) sep =
    let rest = cut s sep in
    if c == sep then some ([], s) else elim rest [ none ↦ none | some (a, b) ↦ some (c ∷ a, b) ]

abbrev cons_head : ℕ → List Bytes → List Bytes
cons_head c [] = (c ∷ []) ∷ []
cons_head c (p ∷ ps) = (c ∷ p) ∷ ps

-- `strings.Split(s, sep)`: always at least one part.
unfoldable pub split : Bytes → ℕ → List Bytes
split [] sep = [] ∷ []
split (c ∷ s) sep = let rest = split s sep in if c == sep then [] ∷ rest else cons_head c rest

unfoldable pub is_space : ℕ → Bool
is_space c = c == 32 || (leb 9 c && leb c 13)

abbrev flush : Bytes → List Bytes → List Bytes
flush [] out = out
flush (c ∷ s) out = (c ∷ s) ∷ out

-- A word under way, and the words behind it.
words : Bytes → Bytes → List Bytes
unfolding is_space
words cur [] = flush cur []
words cur (c ∷ s) =
    let ended = words [] s in
    let longer = words (cur ++ c ∷ []) s in if is_space c then flush cur ended else longer

-- `strings.Fields`
unfoldable pub fields : Bytes → List Bytes
unfolding words
fields s = words [] s

unfoldable pub join : List Bytes → Bytes → Bytes
join [] sep = []
join (p ∷ []) sep = p
join (p ∷ q ∷ ps) sep = p ++ sep ++ join (q ∷ ps) sep

drop_spaces : Bytes → Bytes
unfolding is_space
drop_spaces [] = []
drop_spaces (c ∷ s) = let rest = drop_spaces s in if is_space c then rest else c ∷ s

-- `strings.TrimSpace`
unfoldable pub trim_space : Bytes → Bytes
unfolding drop_spaces
trim_space s = reverse (drop_spaces (reverse (drop_spaces s)))

drop_spaces-solid : (c : ℕ) (s : Bytes) → is_space c ≡ false → drop_spaces (c ∷ s) ≡ c ∷ s
unfolding drop_spaces
drop_spaces-solid c s h = rw h refl

-- A text that neither begins nor ends with white space is left as it is.
pub trim_space-solid :
    (s front back : Bytes) (c d : ℕ)
    → s ≡ c ∷ back
    → s ≡ front ++ d ∷ []
    → is_space c ≡ false
    → is_space d ≡ false
    → trim_space s ≡ s
unfolding trim_space
trim_space-solid s front back c d first last solid end =
    ap (λ t. reverse (drop_spaces (reverse t))) head
    ∙ ap (λ t. reverse (drop_spaces t)) turned
    ∙ ap reverse (drop_spaces-solid d (reverse front) end)
    ∙ ap reverse (sym turned)
    ∙ reverse-reverse s
  where
    head : drop_spaces s ≡ s
    head = ap drop_spaces first ∙ drop_spaces-solid c back solid ∙ sym first

    turned : reverse s ≡ d ∷ reverse front
    turned = ap reverse last ∙ reverse-append front (d ∷ [])

-- So is one behind which a line feed is trimmed.
pub trim_space-line :
    (s front back : Bytes) (c d : ℕ)
    → s ≡ c ∷ back
    → s ≡ front ++ d ∷ []
    → is_space c ≡ false
    → is_space d ≡ false
    → trim_space (s ++ 10 ∷ []) ≡ s
unfolding trim_space is_space drop_spaces
trim_space-line s front back c d first last solid end =
    ap (λ t. reverse (drop_spaces (reverse t))) head
    ∙ ap (λ t. reverse (drop_spaces t)) turned
    ∙ ap reverse (drop_spaces-solid d (reverse front) end)
    ∙ ap reverse (sym (ap reverse last ∙ reverse-append front (d ∷ [])))
    ∙ reverse-reverse s
  where
    head : drop_spaces (s ++ 10 ∷ []) ≡ s ++ 10 ∷ []
    head =
        ap (λ t. drop_spaces (t ++ 10 ∷ [])) first
        ∙ drop_spaces-solid c (back ++ 10 ∷ []) solid
        ∙ ap (λ t. t ++ 10 ∷ []) (sym first)

    turned : reverse (s ++ 10 ∷ []) ≡ 10 ∷ d ∷ reverse front
    turned =
        reverse-append s (10 ∷ [])
        ∙ ap (λ t. 10 ∷ t) (ap reverse last ∙ reverse-append front (d ∷ []))

-- The last byte decides whether a text ends in a byte.
pub has_suffix-last : (front : Bytes) (d c : ℕ) → has_suffix (front ++ d ∷ []) (c ∷ []) ≡ (d == c)
unfolding has_suffix bytes_eq
has_suffix-last front d c =
    rw
      (
        length-append front (d ∷ []),
        drop-append front (d ∷ []) (length front + 1 - 1) (omega arith),
      )
      (ground arith)

unfoldable pub lower : ℕ → ℕ
lower c = if leb b'A' c && leb c b'Z' then c + 32 else c

-- `strings.ToLower` of ASCII text.
unfoldable pub to_lower : Bytes → Bytes
unfolding lower
to_lower [] = []
to_lower (c ∷ s) = lower c ∷ to_lower s

unfoldable pub upper : ℕ → ℕ
upper c = if leb b'a' c && leb c b'z' then c - 32 else c

-- `strings.ToUpper` of ASCII text.
unfoldable pub to_upper : Bytes → Bytes
unfolding upper
to_upper [] = []
to_upper (c ∷ s) = upper c ∷ to_upper s

-- `strings.EqualFold` of ASCII texts.
unfoldable pub equal_fold : Bytes → Bytes → Bool
unfolding to_lower bytes_eq
equal_fold s t = bytes_eq (to_lower s) (to_lower t)

-- `strings.ReplaceAll(s, c, "")` for a single byte.
unfoldable pub delete_byte : ℕ → Bytes → Bytes
delete_byte d [] = []
delete_byte d (c ∷ s) = let rest = delete_byte d s in if c == d then rest else c ∷ rest

-- `a < b` on Go strings.
unfoldable pub bytes_lt : Bytes → Bytes → Bool
bytes_lt s [] = false
bytes_lt [] (d ∷ t) = true
bytes_lt (c ∷ s) (d ∷ t) = let rest = bytes_lt s t in if c == d then rest else ltb c d
