-- ===== src/Cron/Window.antt =====
-- `nextCronAt` gives the wait until the first matching minute, if there is one in the 365 days ahead.
use db_backup.Base.{
  ℕ, ◌+◌, ◌-◌, ◌*◌, ◌%◌, ◌≤◌, ◌<◌, ◌≡◌, true, false, Option, none, some, Bytes, ◌⊎◌,
}
use db_backup.Clock.{Time, minute}
use db_backup.Cron.Field.{cron_match}

-- The same zone at another instant.
abbrev pub at : Time → ℕ → Time
at t i = record t { instant = i }

-- How a scan of `n` minutes from an instant ends.
data Scanned (expr : Bytes) (t : Time) (from n : ℕ) (r : Option Time) : Type 0 where
  nothing :
      r ≡ none
      → ((k : ℕ) → k < n → cron_match expr (at t (from + k * minute)) ≡ false)
      → Scanned expr t from n r
  found :
      (k : ℕ)
      → k < n
      → r ≡ some (at t (from + k * minute))
      → cron_match expr (at t (from + k * minute)) ≡ true
      → ((j : ℕ) → j < k → cron_match expr (at t (from + j * minute)) ≡ false)
      → Scanned expr t from n r

abbrev first : Time → ℕ
first now = now.instant + minute - (now.instant + minute) % minute

-- A wait of 0 says that no full minute of the `n` minutes ahead matches; any other wait ends at the
-- first one that does.
abbrev pub FirstMatch : Bytes → Time → ℕ → ℕ → Type 0
FirstMatch expr now n d =
    (d ≡ 0)
      × ((u : ℕ)
          → now.instant < u
          → u ≤ now.instant + n * minute
          → u % minute ≡ 0
          → cron_match expr (at now u) ≡ false)
    ⊎ (0 < d)
      × (d ≤ n * minute)
      × ((now.instant + d) % minute ≡ 0)
      × (cron_match expr (at now (now.instant + d)) ≡ true)
      × ((u : ℕ)
          → now.instant < u
          → u < now.instant + d
          → u % minute ≡ 0
          → cron_match expr (at now u) ≡ false)
