-- ===== src/Cron/Field.antt =====
-- `fieldMatch` and `cronMatch` of src/internal/scheduler/cron.go, and their twin `cronFieldMatch` with
-- `parseRange` of src/internal/config/schedule.go. The value and the least value of a field are natural
-- numbers, as the callers pass fields of a clock; the greatest value is not used by the code.
use db_backup.Base.{
  ℕ, Bool, true, false, not, ◌&&◌, ◌||◌, List, [], ◌∷◌, Option, none, some, Bytes, codes, bytes_eq,
  ℤ, pos, if◌then◌else◌, any_of, leb_ℤ, eqb_ℤ, sub64, rem_ℤ,
}
use db_backup.Text.{cut, split, contains_byte, fields, atoi}
use db_backup.Clock.{Time, minute_of, hour_of, date_of, weekday_of}
use db_backup.Retention.Policy.{is_positive}

abbrev pub star : Bytes
star = codes "*"

-- `strings.ContainsAny(s, "\"'")`
unfoldable pub has_quote : Bytes → Bool
has_quote s = contains_byte s 34 || contains_byte s 39

-- `parseRange`
unfoldable pub parse_range : Bytes → Option (ℤ × ℤ)
parse_range s = elim (cut s b'-') [
  | none ↦ none
  | some (lo, hi) ↦ elim (atoi lo) [
    | none ↦ none
    | some a ↦ elim (atoi hi) [ none ↦ none | some b ↦ some (a, b) ]
  ]
]

module _ (val min : ℕ) where
  -- `base/step`
  unfoldable pub step_match : Bytes → Bytes → Bool
  step_match base text = elim (atoi text) [
    | none ↦ false
    | some step ↦
        if not (is_positive step)
        then false
        else if bytes_eq base star
        then eqb_ℤ (rem_ℤ (sub64 (pos val) (pos min)) step) (pos 0)
        else elim (atoi base) [
          | none ↦ false
          | some start ↦ leb_ℤ start (pos val) && eqb_ℤ (rem_ℤ (sub64 (pos val) start) step) (pos 0)
        ]
  ]

  -- `a-b`, cut at the first dash; the caller has seen that there is one.
  unfoldable pub range_match : Bytes → Bool
  range_match s = elim (cut s b'-') [
    | none ↦ false
    | some (lo, hi) ↦ elim (atoi lo) [
      | none ↦ false
      | some a ↦ elim (atoi hi) [ none ↦ false | some b ↦ leb_ℤ a (pos val) && leb_ℤ (pos val) b ]
    ]
  ]

  unfoldable pub value_match : Bytes → Bool
  value_match s = elim (atoi s) [ none ↦ false | some n ↦ eqb_ℤ (pos val) n ]

  -- From the test for a slash on: what a field without a comma goes through.
  unfoldable pub atom_match : Bytes → Bool
  unfolding step_match range_match value_match
  atom_match s = elim (cut s b'/') [
    | some (base, text) ↦ step_match base text
    | none ↦ if contains_byte s b'-' then range_match s else value_match s
  ]

  -- The body of `fieldMatch`, with the function that it calls on the parts of a list.
  unfoldable pub field_body : (Bytes → Bool) → Bytes → Bool
  unfolding atom_match has_quote
  field_body again s =
      if bytes_eq s star
      then true
      else if has_quote s
      then false
      else if contains_byte s b','
      then any_of again (split s b',')
      else atom_match s

  -- The parts of a list hold no comma, so the call on a part makes no call of its own.
  unfoldable pub field_match : Bytes → Bool
  unfolding field_body
  field_match s = field_body (field_body (λ _. false)) s

  -- The copy of the configuration, which reads a range with `parseRange`.
  unfoldable pub cron_step_match : Bytes → Bytes → Bool
  cron_step_match base text = elim (atoi text) [
    | none ↦ false
    | some step ↦
        if not (is_positive step)
        then false
        else if bytes_eq base star
        then eqb_ℤ (rem_ℤ (sub64 (pos val) (pos min)) step) (pos 0)
        else elim (atoi base) [
          | none ↦ false
          | some start ↦ leb_ℤ start (pos val) && eqb_ℤ (rem_ℤ (sub64 (pos val) start) step) (pos 0)
        ]
  ]

  unfoldable pub cron_range_match : Option (ℤ × ℤ) → Bool
  cron_range_match none = false
  cron_range_match (some (a, b)) = leb_ℤ a (pos val) && leb_ℤ (pos val) b

  unfoldable pub cron_value_match : Bytes → Bool
  cron_value_match s = elim (atoi s) [ none ↦ false | some n ↦ eqb_ℤ (pos val) n ]

  unfoldable pub cron_atom_match : Bytes → Bool
  unfolding cron_step_match cron_range_match cron_value_match
  cron_atom_match s = elim (cut s b'/') [
    | some (base, text) ↦ cron_step_match base text
    | none ↦ if contains_byte s b'-' then cron_range_match (parse_range s) else cron_value_match s
  ]

  unfoldable pub cron_field_body : (Bytes → Bool) → Bytes → Bool
  unfolding cron_atom_match
  cron_field_body again s =
      if bytes_eq s star
      then true
      else if contains_byte s b','
      then any_of again (split s b',')
      else cron_atom_match s

  unfoldable pub cron_field_match : Bytes → Bool
  unfolding cron_field_body
  cron_field_match s = cron_field_body (cron_field_body (λ _. false)) s

unfoldable pub match_fields : List Bytes → Time → Bool
unfolding field_match
match_fields (mi ∷ h ∷ d ∷ mo ∷ w ∷ []) t =
    field_match (minute_of t) 0 mi
    && field_match (hour_of t) 0 h
    && field_match (date_of t).day 1 d
    && field_match (date_of t).month 1 mo
    && field_match (weekday_of t) 0 w
match_fields other t = false

unfoldable pub cron_match : Bytes → Time → Bool
unfolding match_fields
cron_match expr t = match_fields (fields expr) t
