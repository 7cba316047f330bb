-- ===== src/Runner/FullAfter.antt =====
-- The age rule `full_after` of a chain. Every backend lists modification times in nanoseconds, and
-- `shouldResetChain` reads the one of the last full backup as seconds.
use db_backup.Base.{
  ℕ, ◌*◌, ◌≤◌, ◌<◌, ◌≡◌, ◌≢◌, false, Option, none, some, Bytes, ℤ, zero, suc, pos, negsuc, arith,
  Option-cases, inl, inr, leb_ℤ, ◌&&◌, ◌-ℤ◌,
}
use db_backup.Retention.Policy.{is_positive}
use db_backup.Runner.Chain.{BackupConfig, no_reset, too_old, since_unix, should_reset_chain}

-- Seen as seconds, a time in nanoseconds lies in the future.
since_nanos :
    (now last : ℕ) (d : ℤ)
    → now ≤ last * 1_000_000_000
    → (is_positive d && leb_ℤ d (since_unix (pos now) (pos last))) ≡ false
unfolding since_unix ◌-ℤ◌
since_nanos now last (pos n) h = ground arith
since_nanos now last (negsuc n) h = ground arith

-- Whatever `full_after` says, its age is no reason to reset a chain whose last full backup has a
-- positive modification time `last` with `now ≤ last * 10^9`, which is so for a time in nanoseconds
-- since 1970 but for the first seconds of that year.
pub should_reset_chain_never_too_old :
    (parse_duration : Bytes → Option ℤ) (now last depth : ℕ) (cfg : Option BackupConfig)
    → 0 < last
    → now ≤ last * 1_000_000_000
    → should_reset_chain parse_duration
        (pos now)
        cfg
        (record { depth = depth; last_full = pos last })
      ≢ too_old
unfolding should_reset_chain
should_reset_chain_never_too_old parse_duration now last depth none up h = ground arith
should_reset_chain_never_too_old parse_duration now last depth (some c) up h =
    elim (Option-cases (parse_duration c.full_after)) [
      | inl bad ↦ ground arith
      | inr (d, e) ↦ ground (arith, since_nanos now last d h)
    ]

-- With a positive `full_every`, a chain that is not reset is shallower than that.
pub should_reset_chain_depth :
    (parse_duration : Bytes → Option ℤ) (now last : ℤ) (depth n : ℕ) (after : Bytes)
    → 0 < n
    → should_reset_chain parse_duration now
        (some (record { full_every = pos n; full_after = after }))
        (record { depth = depth; last_full = last })
      ≡ no_reset
    → depth < n
unfolding should_reset_chain
should_reset_chain_depth parse_duration now (pos zero) depth zero after up h = ground arith
should_reset_chain_depth parse_duration now (pos (suc k)) depth zero after up h = ground arith
should_reset_chain_depth parse_duration now (negsuc k) depth zero after up h = ground arith
should_reset_chain_depth parse_duration now (pos zero) depth (suc n) after up h = ground arith
should_reset_chain_depth parse_duration now (pos (suc k)) depth (suc n) after up h = ground arith
should_reset_chain_depth parse_duration now (negsuc k) depth (suc n) after up h = ground arith
