-- ===== src/Cron/Validate.antt =====
-- `ValidateCron`, `validateCronField` and `validateCronAtom` of src/internal/config/schedule.go: true
-- where they return no error.
use db_backup.Base.{
  ℕ, Bool, true, false, not, ◌&&◌, ◌||◌, List, [], ◌∷◌, Option, none, some, Bytes, bytes_eq, ℤ, pos,
  if◌then◌else◌, leb, ◌==◌, ltb_ℤ,
}
use db_backup.Text.{cut, split, contains_byte, fields, atoi}
use db_backup.Retention.Policy.{is_positive}
use db_backup.Cron.Field.{star, has_quote, parse_range}

-- The loop over the characters of a field.
unfoldable pub valid_byte : ℕ → Bool
valid_byte c = (leb b'0' c && leb c b'9') || c == b'*' || c == b',' || c == b'-' || c == b'/'

unfoldable pub valid_bytes : Bytes → Bool
unfolding valid_byte
valid_bytes [] = true
valid_bytes (c ∷ s) = valid_byte c && valid_bytes s

module _ (min max : ℕ) where
  unfoldable pub in_bounds : ℤ → Bool
  in_bounds n = not (ltb_ℤ n (pos min) || ltb_ℤ (pos max) n)

  unfoldable pub valid_step : Bytes → Bytes → Bool
  unfolding in_bounds
  valid_step base text = if bytes_eq text [] then false else elim (atoi text) [
    | none ↦ false
    | some step ↦
        if not (is_positive step)
        then false
        else if bytes_eq base star
        then true
        else elim (atoi base) [ none ↦ false | some start ↦ in_bounds start ]
  ]

  unfoldable pub valid_range : Option (ℤ × ℤ) → Bool
  valid_range none = false
  valid_range (some (a, b)) = not (ltb_ℤ a (pos min) || ltb_ℤ (pos max) b || ltb_ℤ b a)

  unfoldable pub valid_value : Bytes → Bool
  unfolding in_bounds
  valid_value s = elim (atoi s) [ none ↦ false | some n ↦ in_bounds n ]

  unfoldable pub validate_cron_atom : Bytes → Bool
  unfolding valid_step valid_range valid_value
  validate_cron_atom s = elim (cut s b'/') [
    | some (base, text) ↦ valid_step base text
    | none ↦ if contains_byte s b'-' then valid_range (parse_range s) else valid_value s
  ]

  -- The loop over the parts of a list.
  unfoldable pub valid_parts : List Bytes → Bool
  unfolding validate_cron_atom
  valid_parts [] = true
  valid_parts (p ∷ ps) =
      let rest = valid_parts ps in
      if bytes_eq p [] || contains_byte p b',' then false else validate_cron_atom p && rest

  unfoldable pub validate_cron_field : Bytes → Bool
  unfolding valid_bytes valid_parts
  validate_cron_field s =
      if bytes_eq s []
      then false
      else if not (valid_bytes s)
      then false
      else if bytes_eq s star
      then true
      else if contains_byte s b','
      then valid_parts (split s b',')
      else validate_cron_atom s

unfoldable pub validate_fields : List Bytes → Bool
unfolding validate_cron_field
validate_fields (mi ∷ h ∷ d ∷ mo ∷ w ∷ []) =
    validate_cron_field 0 59 mi
    && validate_cron_field 0 23 h
    && validate_cron_field 1 31 d
    && validate_cron_field 1 12 mo
    && validate_cron_field 0 6 w
validate_fields other = false

unfoldable pub validate_cron : Bytes → Bool
unfolding validate_fields
validate_cron expr = if has_quote expr then false else validate_fields (fields expr)
