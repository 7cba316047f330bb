-- ===== src/Clock.antt =====
-- Go's `time` package as the code uses it: an instant in nanoseconds since the start of year 1, UTC
-- (the zero `time.Time`), with the offset of its zone in seconds; the calendar is the proleptic
-- Gregorian one. Times before year 1 are not represented. The offset is that of
-- the instant; what a zone does at others, daylight saving among it, is left to the callers.
pub mod ReadBack
use db_backup.Base.{
  ℕ, zero, suc, ◌+◌, ◌-◌, ◌*◌, ◌/◌, ◌%◌, Bool, [], ◌∷◌, ◌++◌, Bytes, codes, ◌==◌, ltb,
  if◌then◌else◌, length, ℤ, pos_part, neg_part,
}

pub record Time : Type 0 where
  pub instant : ℕ
  pub zone : ℤ

abbrev pub second : ℕ
second = 1_000_000_000

abbrev pub minute : ℕ
minute = 60_000_000_000

abbrev pub hour : ℕ
hour = 3_600_000_000_000

abbrev pub is_zero : Time → Bool
is_zero t = t.instant == 0

abbrev pub after : Time → Time → Bool
after t u = ltb u.instant t.instant

-- Seconds of the wall clock since the start of year 1.
unfoldable pub wall : Time → ℕ
wall t = t.instant / second + pos_part t.zone - neg_part t.zone

unfoldable pub wall_days : Time → ℕ
unfolding wall
wall_days t = wall t / 86400

unfoldable pub hour_of : Time → ℕ
unfolding wall
hour_of t = wall t % 86400 / 3600

unfoldable pub minute_of : Time → ℕ
unfolding wall
minute_of t = wall t % 3600 / 60

pub record Date : Type 0 where
  pub year : ℕ
  pub month : ℕ
  pub day : ℕ

-- The date of a day number, by eras of 400 years that begin on 1 March.
unfoldable pub civil : ℕ → Date
civil days =
    let z = days + 306 in
    let era = z / 146097 in
    let doe = z % 146097 in
    let yoe = (doe + doe / 36524 - doe / 1460 - doe / 146096) / 365 in
    let doy = doe + yoe / 100 - 365 * yoe - yoe / 4 in
    let mp = (5 * doy + 2) / 153 in
    let early = ltb mp 10 in
    record {
      year = yoe + era * 400 + (if early then 0 else 1);
      month = if early then mp + 3 else mp - 9;
      day = doy - (153 * mp + 2) / 5 + 1;
    }

unfoldable pub date_of : Time → Date
unfolding civil wall_days
date_of t = civil (wall_days t)

-- Sunday is 0.
unfoldable pub weekday_of : Time → ℕ
unfolding wall_days
weekday_of t = (wall_days t + 1) % 7

-- The day number of 1 January.
abbrev new_year : ℕ → ℕ
new_year y = let p = y - 1 in 365 * p + p / 4 - p / 100 + p / 400

-- `ISOWeek`: the year and week of the Thursday of the same week.
unfoldable pub iso_week : Time → ℕ × ℕ
unfolding civil wall_days
iso_week t =
    let thursday = wall_days t + 3 - wall_days t % 7 in
    let year = (civil thursday).year in (year, (thursday - new_year year) / 7 + 1)

unfoldable pub decimal_loop : ℕ → ℕ → Bytes → Bytes
decimal_loop zero n out = out
decimal_loop (suc fuel) n out =
    let more = decimal_loop fuel (n / 10) ((b'0' + n % 10) ∷ out) in if n == 0 then out else more

-- `%d` of a natural number.
unfoldable pub decimal : ℕ → Bytes
unfolding decimal_loop
decimal n = if n == 0 then codes "0" else decimal_loop (n + 1) n []

zeros : ℕ → Bytes
zeros zero = []
zeros (suc n) = b'0' ∷ zeros n

-- `%0wd`
unfoldable pub padded : ℕ → ℕ → Bytes
unfolding decimal zeros
padded w n = zeros (w - length (decimal n)) ++ decimal n

-- `t.Truncate(d)`: down to a multiple of `d` since the zero time.
unfoldable pub truncate : ℕ → Time → Time
truncate d t = record t { instant = t.instant - t.instant % d }
