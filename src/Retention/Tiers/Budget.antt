-- ===== src/Retention/Tiers/Budget.antt =====
-- What one tier keeps: a backup in each of at most `n` buckets, and none that it leaves has a bucket
-- of its own while there is room.
use db_backup.Base.{
  ℕ, ◌+◌, ◌≤◌, ◌<◌, ◌≡◌, refl, sym, true, false, List, [], ◌∷◌, Bytes, mem, bytes_eq, length, arith,
  pos, inl, inr, ◌⊎◌, In, bytes_eq_refl, bytes_eq_sound, not-mem-nil,
}
use db_backup.Clock.{Time}
use db_backup.Retention.Policy.{BackupEntry, is_positive}
use db_backup.Retention.Tiers.Scan.{Seen, tier_step, tier_scan, apply_tier, tier_scan-Keeps, Keeps}

-- No key stands in the list twice.
abbrev pub IsDistinct : List Bytes → Type 0
IsDistinct [] = Unit
IsDistinct (k ∷ ks) = (mem k ks ≡ false) × IsDistinct ks

module _ (n : ℕ) (key : Time → Bytes) where
  -- Where a key of `out` that is not among `old` comes from.
  abbrev Bucketed : List BackupEntry → Seen → List Bytes → Type 0
  Bucketed bs out old =
      (k : Bytes)
      → mem k out.seen ≡ true
      → (mem k old ≡ true)
        ⊎ ((b : BackupEntry) × In b bs × (key b.timestamp ≡ k) × (mem b.file_name out.kept ≡ true))

  abbrev Left : List BackupEntry → Seen → Type 0
  Left bs out =
      (b : BackupEntry)
      → In b bs
      → mem b.file_name out.kept ≡ false
      → (length out.seen ≡ n) ⊎ (mem (key b.timestamp) out.seen ≡ true)

  step_count :
      (s : Seen) (b : BackupEntry)
      → length (tier_step (pos n) key s b).kept + length s.seen
        ≡ length s.kept + length (tier_step (pos n) key s b).seen
  unfolding tier_step
  step_count s b = ground arith

  step_bound :
      (s : Seen) (b : BackupEntry) → length s.seen ≤ n → length (tier_step (pos n) key s b).seen ≤ n
  unfolding tier_step
  step_bound s b h = ground arith

  step_grows :
      (s : Seen) (b : BackupEntry) → length s.seen ≤ length (tier_step (pos n) key s b).seen
  unfolding tier_step
  step_grows s b = ground arith

  step-IsDistinct :
      (s : Seen) (b : BackupEntry) → IsDistinct s.seen → IsDistinct (tier_step (pos n) key s b).seen
  unfolding tier_step
  step-IsDistinct s b d = ground arith

  step_seen : (s : Seen) (b : BackupEntry) → Keeps s.seen (tier_step (pos n) key s b).seen
  unfolding tier_step mem
  step_seen s b j m = ground arith

  -- The body keeps the backup, or has no room, or has seen its bucket.
  step_left :
      (s : Seen) (b : BackupEntry)
      → (mem b.file_name (tier_step (pos n) key s b).kept ≡ true)
        ⊎ (n ≤ length s.seen)
        ⊎ (mem (key b.timestamp) s.seen ≡ true)
  unfolding tier_step mem
  step_left s b = ground (arith, bytes_eq_refl b.file_name)

  step_source :
      (s : Seen) (b : BackupEntry) (k : Bytes)
      → mem k (tier_step (pos n) key s b).seen ≡ true
      → (mem k s.seen ≡ true)
        ⊎ (bytes_eq k (key b.timestamp) ≡ true)
          × (mem b.file_name (tier_step (pos n) key s b).kept ≡ true)
  unfolding tier_step mem
  step_source s b k m = ground (arith, bytes_eq_refl b.file_name)

  scan_count :
      (bs : List BackupEntry) (s : Seen)
      → length (tier_scan (pos n) key bs s).kept + length s.seen
        ≡ length s.kept + length (tier_scan (pos n) key bs s).seen
  unfolding tier_scan
  scan_count [] s = refl
  scan_count (b ∷ bs) s = omega (arith, scan_count bs (tier_step (pos n) key s b), step_count s b)

  scan_bound :
      (bs : List BackupEntry) (s : Seen)
      → length s.seen ≤ n
      → length (tier_scan (pos n) key bs s).seen ≤ n
  unfolding tier_scan
  scan_bound [] s h = h
  scan_bound (b ∷ bs) s h = scan_bound bs (tier_step (pos n) key s b) (step_bound s b h)

  scan_grows :
      (bs : List BackupEntry) (s : Seen) → length s.seen ≤ length (tier_scan (pos n) key bs s).seen
  unfolding tier_scan
  scan_grows [] s = omega arith
  scan_grows (b ∷ bs) s = omega (arith, scan_grows bs (tier_step (pos n) key s b), step_grows s b)

  scan-IsDistinct :
      (bs : List BackupEntry) (s : Seen)
      → IsDistinct s.seen
      → IsDistinct (tier_scan (pos n) key bs s).seen
  unfolding tier_scan
  scan-IsDistinct [] s d = d
  scan-IsDistinct (b ∷ bs) s d =
      scan-IsDistinct bs (tier_step (pos n) key s b) (step-IsDistinct s b d)

  scan_seen : (bs : List BackupEntry) (s : Seen) → Keeps s.seen (tier_scan (pos n) key bs s).seen
  unfolding tier_scan
  scan_seen [] s j m = m
  scan_seen (b ∷ bs) s j m = scan_seen bs (tier_step (pos n) key s b) j (step_seen s b j m)

  scan-Left :
      (bs : List BackupEntry) (s : Seen) → length s.seen ≤ n → Left bs (tier_scan (pos n) key bs s)
  unfolding tier_scan
  scan-Left [] s h b i m = elim i [ ]
  scan-Left (x ∷ bs) s h b (inr i) m =
      scan-Left bs (tier_step (pos n) key s x) (step_bound s x h) b i m
  scan-Left (x ∷ bs) s h b (inl e) m = elim (step_left s x) [
    | inl kept ↦ cc (tier_scan-Keeps (pos n) key bs (tier_step (pos n) key s x) x.file_name kept, e)
    | inr (inl room) ↦ inl (
        omega (
          arith,
          scan_grows bs (tier_step (pos n) key s x),
          step_grows s x,
          scan_bound bs (tier_step (pos n) key s x) (step_bound s x h),
        ))
    | inr (inr old) ↦ inr (rw e (scan_seen bs (tier_step (pos n) key s x) _ (step_seen s x _ old)))
  ]

  scan_source : (bs : List BackupEntry) (s : Seen) → Bucketed bs (tier_scan (pos n) key bs s) s.seen
  unfolding tier_scan
  scan_source [] s k m = inl m
  scan_source (x ∷ bs) s k m =
      let after = tier_step (pos n) key s x in
      elim (scan_source bs after k m) [
        | inr (b, i, e, kept) ↦ inr (b, inr i, e, kept)
        | inl new ↦ elim (step_source s x k new) [
          | inl old ↦ inl old
          | inr (same, kept) ↦ inr (
            x,
            inl refl,
            sym (bytes_eq_sound k (key x.timestamp) same),
            tier_scan-Keeps (pos n) key bs after x.file_name kept,
          )
        ]
      ]

-- What a tier of `n` keeps beyond what was kept: as many entries as there are distinct buckets in
-- `buckets`, at most `n`, each the bucket of a backup that is kept now. A backup that is not kept
-- lies in one of these buckets, or there are `n` of them.
pub apply_tier_buckets :
    (n : ℕ) (key : Time → Bytes) (bs : List BackupEntry) (kept : List Bytes)
    → 0 < n
    → (buckets : List Bytes) × (length buckets ≤ n)
      × IsDistinct buckets
      × (length (apply_tier (pos n) key bs kept) ≡ length kept + length buckets)
      × ((k : Bytes)
          → mem k buckets ≡ true
          → (b : BackupEntry) × In b bs
            × (key b.timestamp ≡ k)
            × (mem b.file_name (apply_tier (pos n) key bs kept) ≡ true))
      × ((b : BackupEntry)
          → In b bs
          → mem b.file_name (apply_tier (pos n) key bs kept) ≡ false
          → (length buckets ≡ n) ⊎ (mem (key b.timestamp) buckets ≡ true))
unfolding apply_tier
apply_tier_buckets n key bs kept h =
    let start : Seen = record { seen = []; kept = kept } in
    let scanned = tier_scan (pos n) key bs start in
    let taken : is_positive (pos n) ≡ true = ground arith in
    rw taken (
      scanned.seen,
      scan_bound n key bs start (omega arith),
      scan-IsDistinct n key bs start tt,
      omega (arith, scan_count n key bs start),
      λ k m. elim (scan_source n key bs start k m) [
        | inl old ↦ absurd (not-mem-nil k old)
        | inr found ↦ found
      ],
      scan-Left n key bs start (omega arith),
    )
