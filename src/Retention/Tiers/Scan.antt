-- ===== src/Retention/Tiers/Scan.antt =====
-- The tiers. The closure `applyTier` is `apply_tier`: its loop over the backups is `tier_scan`, and
-- `tier_step` is the body. `kept` and `seen`, maps to which only `true` is written, are lists of keys.
use db_backup.Base.{
  ◌≡◌, true, ◌&&◌, not, List, [], ◌∷◌, ◌++◌, Bytes, codes, mem, ltb, if◌then◌else◌, length, arith,
  ℤ, pos_part, Bool-cases, inl, inr,
}
use db_backup.Clock.{Time, hour, date_of, hour_of, iso_week, truncate, padded, decimal}
use db_backup.Retention.Policy.{BackupEntry, RetentionPolicy, is_positive}

-- `t.Truncate(time.Hour).Format("2006-01-02T15")` and the other bucket names.
unfoldable pub daily_key : Time → Bytes
daily_key t =
    let d = date_of t in
    padded 4 d.year ++ codes "-" ++ padded 2 d.month ++ codes "-" ++ padded 2 d.day

unfoldable pub hourly_key : Time → Bytes
unfolding daily_key
hourly_key t = let u = truncate hour t in daily_key u ++ codes "T" ++ padded 2 (hour_of u)

unfoldable pub weekly_key : Time → Bytes
weekly_key t = let (year, week) = iso_week t in decimal year ++ codes "-W" ++ padded 2 week

unfoldable pub monthly_key : Time → Bytes
monthly_key t = let d = date_of t in padded 4 d.year ++ codes "-" ++ padded 2 d.month

unfoldable pub yearly_key : Time → Bytes
yearly_key t = decimal (date_of t).year

pub record Seen : Type 0 where
  pub seen : List Bytes
  pub kept : List Bytes

module _ (n : ℤ) (key : Time → Bytes) where
  unfoldable pub tier_step : Seen → BackupEntry → Seen
  tier_step s b =
      let k = key b.timestamp in
      if mem b.file_name s.kept
      then s
      else if ltb (length s.seen) (pos_part n) && not (mem k s.seen)
      then record { seen = k ∷ s.seen; kept = b.file_name ∷ s.kept }
      else s

  unfoldable pub tier_scan : List BackupEntry → Seen → Seen
  unfolding tier_step
  tier_scan [] s = s
  tier_scan (b ∷ bs) s = tier_scan bs (tier_step s b)

  unfoldable pub apply_tier : List BackupEntry → List Bytes → List Bytes
  unfolding tier_scan
  apply_tier bs kept =
      if is_positive n then (tier_scan bs (record { seen = []; kept = kept })).kept else kept

unfoldable pub apply_tiers : List BackupEntry → RetentionPolicy → List Bytes → List Bytes
unfolding apply_tier hourly_key daily_key weekly_key monthly_key yearly_key
apply_tiers bs p kept = apply_tier p.yearly yearly_key bs (
    apply_tier p.monthly monthly_key bs (
      apply_tier p.weekly weekly_key bs
        (apply_tier p.daily daily_key bs (apply_tier p.hourly hourly_key bs kept))))

-- The community build leaves the no-op hook of gfs.go in place.
pub data Build : Type 0 where
  community supported : Build

unfoldable pub tier_hook : Build → List BackupEntry → RetentionPolicy → List Bytes → List Bytes
unfolding apply_tiers
tier_hook community bs p kept = kept
tier_hook supported bs p kept = apply_tiers bs p kept

abbrev pub Keeps : List Bytes → List Bytes → Type 0
Keeps kept out = (j : Bytes) → mem j kept ≡ true → mem j out ≡ true

module _ (n : ℤ) (key : Time → Bytes) where
  tier_step-Keeps : (s : Seen) (b : BackupEntry) → Keeps s.kept (tier_step n key s b).kept
  unfolding tier_step mem
  tier_step-Keeps s b j m = ground arith

  pub tier_scan-Keeps :
      (bs : List BackupEntry) (s : Seen) → Keeps s.kept (tier_scan n key bs s).kept
  unfolding tier_scan
  tier_scan-Keeps [] s j m = m
  tier_scan-Keeps (b ∷ bs) s j m =
      tier_scan-Keeps bs (tier_step n key s b) j (tier_step-Keeps s b j m)

  apply_tier-Keeps :
      (bs : List BackupEntry) (kept : List Bytes) → Keeps kept (apply_tier n key bs kept)
  unfolding apply_tier
  apply_tier-Keeps bs kept j m = elim (Bool-cases (is_positive n)) [
    | inl h ↦ rw (h, apply_tier) (tier_scan-Keeps bs (record { seen = []; kept = kept }) j m)
    | inr h ↦ rw (h, apply_tier) m
  ]

-- The hook only ever adds to what is kept.
pub tier_hook-Keeps :
    (build : Build) (bs : List BackupEntry) (p : RetentionPolicy) (kept : List Bytes)
    → Keeps kept (tier_hook build bs p kept)
unfolding tier_hook
tier_hook-Keeps community bs p kept j m = m
tier_hook-Keeps supported bs p kept j m = apply_tier-Keeps p.yearly yearly_key bs _ j (
    apply_tier-Keeps p.monthly monthly_key bs _ j (
      apply_tier-Keeps p.weekly weekly_key bs _ j (
        apply_tier-Keeps p.daily daily_key bs _ j
          (apply_tier-Keeps p.hourly hourly_key bs kept j m))))
