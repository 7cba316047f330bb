-- ===== src/Text/Atoi.antt =====
-- `strconv.Atoi`: an optional sign, at least one decimal digit, and the range of 64 bits. Go gives
-- a value beside the error: 0 for a malformed text, the nearest bound for one out of range.
use db_backup.Base.{
  ℕ, ◌+◌, ◌-◌, ◌*◌, ◌^◌, Bool, ◌&&◌, [], ◌∷◌, Option, none, some, Bytes, ◌==◌, ltb, leb,
  if◌then◌else◌, ℤ, pos, negsuc, sub_ℕ,
}

pub data Parsed : Type 0 where
  good : ℤ → Parsed
  syntax_error : Parsed
  range_error : ℤ → Parsed

unfoldable pub is_digit : ℕ → Bool
is_digit c = leb b'0' c && leb c b'9'

-- The number that digits spell behind `acc`, with no bound; `none` at a byte that is no digit.
unfoldable pub digits_value : ℕ → Bytes → Option ℕ
unfolding is_digit
digits_value acc [] = some acc
digits_value acc (c ∷ s) =
    let rest = digits_value (acc * 10 + (c - b'0')) s in if is_digit c then rest else none

unfoldable pub magnitude : Bytes → Option ℕ
unfolding digits_value
magnitude [] = none
magnitude (c ∷ s) = digits_value 0 (c ∷ s)

unfoldable pub positive : Bytes → Parsed
unfolding magnitude
positive s = elim (magnitude s) [
  | none ↦ syntax_error
  | some n ↦ if ltb n (2 ^ 63) then good (pos n) else range_error (pos (2 ^ 63 - 1))
]

unfoldable pub negative : Bytes → Parsed
unfolding magnitude
negative s = elim (magnitude s) [
  | none ↦ syntax_error
  | some n ↦ if leb n (2 ^ 63) then good (sub_ℕ 0 n) else range_error (negsuc (2 ^ 63 - 1))
]

unfoldable pub parse_int : Bytes → Parsed
unfolding positive negative
parse_int [] = syntax_error
parse_int (c ∷ s) =
    if c == b'-' then negative s else if c == b'+' then positive s else positive (c ∷ s)

abbrev pub checked : Parsed → Option ℤ
checked (good n) = some n
checked _ = none

abbrev pub value : Parsed → ℤ
value (good n) = n
value syntax_error = pos 0
value (range_error n) = n

-- The result where the code tests the error, and the value where the code drops it.
unfoldable pub atoi : Bytes → Option ℤ
unfolding parse_int
atoi s = checked (parse_int s)

unfoldable pub atoi_value : Bytes → ℤ
unfolding parse_int
atoi_value s = value (parse_int s)
