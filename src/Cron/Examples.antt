-- ===== src/Cron/Examples.antt =====
-- Concrete cron expressions, and concrete texts that numbers are read from.
use db_backup.Base.{[], none, some, negsuc, ℕ, ◌≡◌, ◌≤◌, refl, true, codes, pos, arith, bytes_eq}
use db_backup.Text.{contains_byte, split, cut, atoi, atoi_value}
use db_backup.Clock.{Time}
use db_backup.Cron.Field.{field_match, cron_field_match, has_quote, parse_range}
use db_backup.Cron.Validate.{validate_cron_field}
use db_backup.Cron.Commas.{field_match-cron_field_match}
use db_backup.Cron.Satisfy.{validate_cron_field-satisfiable}

abbrev noon : Time
noon = record { instant = 43_200_000_000_000; zone = pos 0 }

field_match-cron_field_match_example :
    field_match 5 0 (codes "1,4-6") ≡ cron_field_match 5 0 (codes "1,4-6")
unfolding has_quote contains_byte
field_match-cron_field_match_example = field_match-cron_field_match 5 0 (codes "1,4-6") refl

validate_cron_field-satisfiable_example :
    (v : ℕ) × (0 ≤ v) × (v ≤ 59) × (field_match v 0 (codes "1,4-6") ≡ true)
unfolding validate_cron_field bytes_eq contains_byte split cut atoi parse_range
validate_cron_field-satisfiable_example =
    validate_cron_field-satisfiable 0 59 (codes "1,4-6") (omega arith) (omega arith) refl

atoi_tests :
    (atoi (codes "-12") ≡ some (negsuc 11))
    × (atoi (codes "+7") ≡ some (pos 7))
    × (atoi (codes "1_0") ≡ none)
    × (atoi [] ≡ none)
    × (atoi (codes "9223372036854775808") ≡ none)
    × (atoi_value (codes "9223372036854775808") ≡ pos 9223372036854775807)
unfolding atoi atoi_value
atoi_tests = (refl, refl, refl, refl, refl, refl)
