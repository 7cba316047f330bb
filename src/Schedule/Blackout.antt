-- ===== src/Schedule/Blackout.antt =====
-- The window of a blackout on the circle of a day's minutes.
use db_backup.Base.{
  ℕ, ◌+◌, ◌*◌, ◌-◌, ◌%◌, ◌≤◌, ◌<◌, ◌≡◌, ◌↔◌, refl, true, false, ◌||◌, some, Bytes, bytes_eq, arith,
  ltb, ◌==◌, ℤ, pos, negsuc, Option-cases, Bool-cases, inl, inr, [], take, drop, length, ◌∷◌,
}
use db_backup.Text.{atoi, delete_byte}
use db_backup.Clock.{Time, hour_of, minute_of}
use db_backup.Retention.Tiers.Scan.{Build}
use db_backup.Schedule.Data.{
  Blackout, clock, parse_hhmm, minute_of_day, in_window, contains, blackout_day_skip,
}

-- How many minutes after `start` the clock shows `x` next.
abbrev pub minutes_from : ℕ → ℕ → ℕ
minutes_from start x = (x + 1440 - start) % 1440

clock-lt : (h m : ℤ) (n : ℕ) → clock h m ≡ some n → n < 1440
clock-lt (pos h) (pos m) n e = elim (Bool-cases (ltb 23 h || ltb 59 m)) [
  | inl out ↦ cc (rw out at e)
  | inr within ↦
      let e' : some (h * 60 + m) ≡ some n = rw within at e in
      let same : h * 60 + m ≡ n = cc in
      let bounds : (h ≤ 23) × (m ≤ 59) = ground arith in let (hb, mb) = bounds in omega arith
]
clock-lt (pos h) (negsuc m) n e = cc
clock-lt (negsuc h) m n e = cc

pub parse_hhmm-lt : (s : Bytes) (n : ℕ) → parse_hhmm s ≡ some n → n < 1440
unfolding parse_hhmm
parse_hhmm-lt s n e =
    let t = delete_byte b':' s in
    elim (Bool-cases (length t == 4)) [
      | inr long ↦ cc (rw (long, parse_hhmm) at e)
      | inl four ↦ elim (Option-cases (atoi (take 2 t))) [
        | inl bad ↦ cc (rw (four, bad, parse_hhmm) at e)
        | inr (h, eh) ↦ elim (Option-cases (atoi (drop 2 t))) [
          | inl bad ↦ cc (rw (four, eh, bad, parse_hhmm) at e)
          | inr (m, em) ↦ clock-lt h m n (rw (four, eh, em, parse_hhmm) at e)
        ]
      ]
    ]

minute_of_day-lt : (t : Time) → minute_of_day t < 1440
unfolding hour_of minute_of
minute_of_day-lt t = omega arith

in_window-circle :
    (start finish now : ℕ)
    → start < 1440
    → finish < 1440
    → now < 1440
    → (in_window start finish now ≡ true)
      ↔ ((0 < minutes_from start now) × (minutes_from start now < minutes_from start finish))
unfolding in_window
in_window-circle start finish now s f n = (λ h. ground arith, λ h. ground arith)

parse_hhmm-given : (s : Bytes) (n : ℕ) → parse_hhmm s ≡ some n → bytes_eq s [] ≡ false
unfolding parse_hhmm bytes_eq delete_byte
parse_hhmm-given [] n e = cc
parse_hhmm-given (c ∷ s) n e = refl

-- A window with readable ends, on a day that it is for, contains a time exactly if its clock, going
-- round from the begin, has left the begin and has not reached the end.
pub contains_circle :
    (build : Build) (b : Blackout) (t : Time) (start finish : ℕ)
    → parse_hhmm b.begin ≡ some start
    → parse_hhmm b.end ≡ some finish
    → blackout_day_skip build b t ≡ false
    → (contains build b t ≡ true) ↔ (
        (0 < minutes_from start (minute_of_day t))
        × (minutes_from start (minute_of_day t) < minutes_from start finish))
unfolding contains
contains_circle build b t start finish es ef day =
    rw (parse_hhmm-given b.begin start es, parse_hhmm-given b.end finish ef, es, ef, day, contains)
      (in_window-circle start finish (minute_of_day t) (parse_hhmm-lt b.begin start es)
        (parse_hhmm-lt b.end finish ef) (minute_of_day-lt t))
