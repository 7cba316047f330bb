-- ===== src/Retention/Apply/Editions.antt =====
-- How the build and the licence enter the decision: the tiers only ever keep more, and without the
-- licence the supported build decides as the community build does.
use db_backup.Base.{
  ◌≡◌, ◌↔◌, refl, subst, ap, Bool, true, false, ◌||◌, List, [], ◌∷◌, some, Bytes, mem, bytes_eq,
  arith, Bool-cases, Option-cases, inl, inr, In, any_of_intro, bytes_eq_refl,
}
use db_backup.Clock.{Time}
use db_backup.SortSlice.{SortSlice}
use db_backup.Retention.Policy.{BackupEntry, RetentionPolicy, is_positive, has_gfs}
use db_backup.Retention.Chain.Walk.{chain_dependencies}
use db_backup.Retention.Chain.Closure.{Needed}
use db_backup.Retention.Tiers.Scan.{community, supported, tier_hook, tier_hook-Keeps, apply_tiers}
use db_backup.Retention.Apply.Defs.{
  newest_first, effective_now, apply_retention_at, decide, base_kept, granted, to_delete,
}
use db_backup.Retention.Apply.Kept.{named, rule_needed, rule_within, rule_last, mem-base_kept}
use db_backup.Retention.Apply.Fate.{
  apply_retention_at_lem, In-to_delete, to_delete-In, In-sorted, false_of_Keeps,
}

-- The test by which the community build deletes a listed name.
abbrev pub Unprotected : RetentionPolicy → Time → List BackupEntry → Bytes → Type 0
Unprotected p t sorted k =
    (Needed sorted k → ⊥) × (rule_within p t sorted k ≡ false) × (rule_last p sorted k ≡ false)

decide-community :
    (allowed : Bool) (p : RetentionPolicy) (t : Time) (sorted : List BackupEntry)
    (needed : List Bytes)
    → ((j : Bytes) → (mem j needed ≡ true) ↔ Needed sorted j)
    → (b : BackupEntry) → In b sorted
    → In b.file_name (decide community allowed p t sorted needed)
      ↔ Unprotected p t sorted b.file_name
unfolding decide tier_hook
decide-community allowed p t sorted needed iff b i = (forth, back)
  where
    k : Bytes
    k = b.file_name

    rules :
        mem k (base_kept sorted p t needed)
        ≡ ((rule_needed needed sorted k || rule_within p t sorted k) || rule_last p sorted k)
    rules = mem-base_kept k sorted p t needed

    here : named k sorted ≡ true
    here = any_of_intro (λ x. bytes_eq k x.file_name) sorted b i (bytes_eq_refl k)

    parts :
        mem k (base_kept sorted p t needed) ≡ false
        → (mem k needed ≡ false)
          × (rule_within p t sorted k ≡ false)
          × (rule_last p sorted k ≡ false)
    parts m = ground (arith, rules, here)

    whole :
        mem k needed ≡ false
        → rule_within p t sorted k ≡ false
        → rule_last p sorted k ≡ false
        → mem k (base_kept sorted p t needed) ≡ false
    whole a w l = ground (arith, rules, here)

    forth : In k (to_delete (base_kept sorted p t needed) sorted) → Unprotected p t sorted k
    forth d =
        let found = In-to_delete k (base_kept sorted p t needed) sorted d in
        let (a, w, l) = parts found.0 in (λ need. cc ((iff k).1 need, a), w, l)

    back : Unprotected p t sorted k → In k (to_delete (base_kept sorted p t needed) sorted)
    back (n, w, l) = elim (Bool-cases (mem k needed)) [
      | inl yes_needed ↦ absurd (n ((iff k).0 yes_needed))
      | inr a ↦ to_delete-In (base_kept sorted p t needed) sorted b i (whole a w l)
    ]

-- The decision is always reached, and the community build deletes the file of a listed backup exactly
-- if no incremental or differential backup needs it, no backup of its name lies in the window of
-- `within`, and none of its name is among the first `last` of the sorted listing.
pub apply_retention_at-community_iff :
    (sorter : SortSlice) (allowed : Bool) (clock : Time) (bs : List BackupEntry)
    (p : RetentionPolicy) (now : Time) (b : BackupEntry)
    → In b bs
    → (out : List Bytes) × (apply_retention_at sorter community allowed clock bs p now ≡ some out)
      × (In b.file_name out
          ↔ Unprotected p
              (effective_now clock now)
              (sorter.sort BackupEntry newest_first bs)
              b.file_name)
unfolding apply_retention_at
apply_retention_at-community_iff sorter allowed clock [] p now b i = elim i [ ]
apply_retention_at-community_iff sorter allowed clock (x ∷ bs) p now b i =
    let (needed, iff, e) = apply_retention_at_lem sorter community allowed clock x bs p now in
    (
      decide community allowed p (effective_now clock now)
          (sorter.sort BackupEntry newest_first (x ∷ bs)) needed,
      e,
      decide-community allowed p (effective_now clock now) _ needed iff b
          (In-sorted sorter community allowed clock (x ∷ bs) p now b i),
    )

abbrev NoGfs : RetentionPolicy → Type 0
NoGfs p =
    (is_positive p.hourly ≡ false)
    × (is_positive p.daily ≡ false)
    × (is_positive p.weekly ≡ false)
    × (is_positive p.monthly ≡ false)
    × (is_positive p.yearly ≡ false)

tiers_idle :
    (bs : List BackupEntry) (p : RetentionPolicy) (kept : List Bytes)
    → NoGfs p
    → apply_tiers bs p kept ≡ kept
unfolding apply_tiers
tiers_idle bs p kept (h, d, w, m, y) = rw (h, d, w, m, y)

granted_unlicensed : (p : RetentionPolicy) → NoGfs (granted false p)
unfolding granted
granted_unlicensed p = elim (Bool-cases (has_gfs p)) [
  | inl gfs ↦ ground arith
  | inr none_set ↦ ground arith
]

decide_unlicensed :
    (allowed : Bool) (p : RetentionPolicy) (t : Time) (sorted : List BackupEntry)
    (needed : List Bytes)
    → decide supported false p t sorted needed ≡ decide community allowed p t sorted needed
unfolding decide tier_hook
decide_unlicensed allowed p t sorted needed =
    rw (tiers_idle sorted (granted false p) (base_kept sorted p t needed) (granted_unlicensed p))

-- Without the licence for tiers, the supported build decides as the community build does.
pub apply_retention_at_unlicensed :
    (sorter : SortSlice) (allowed : Bool) (clock : Time) (bs : List BackupEntry)
    (p : RetentionPolicy) (now : Time)
    → apply_retention_at sorter supported false clock bs p now
      ≡ apply_retention_at sorter community allowed clock bs p now
unfolding apply_retention_at
apply_retention_at_unlicensed sorter allowed clock [] p now = refl
apply_retention_at_unlicensed sorter allowed clock (b ∷ bs) p now =
    elim (Option-cases (chain_dependencies (sorter.sort BackupEntry newest_first (b ∷ bs)))) [
      | inl stuck ↦ rw (stuck, apply_retention_at)
      | inr (needed, e) ↦
          rw (e, apply_retention_at)
            (ap some (decide_unlicensed allowed p (effective_now clock now) _ needed))
    ]

decide_mono :
    (allowed : Bool) (p : RetentionPolicy) (t : Time) (sorted : List BackupEntry)
    (needed : List Bytes) (k : Bytes)
    → In k (decide supported allowed p t sorted needed)
    → In k (decide community allowed p t sorted needed)
unfolding decide tier_hook
decide_mono allowed p t sorted needed k i =
    let kept = base_kept sorted p t needed in
    let tiers = granted allowed p in
    let (m, b, j, e) = In-to_delete k (apply_tiers sorted tiers kept) sorted i in
    rw (← e) (
      to_delete-In kept sorted b j (
        false_of_Keeps kept (apply_tiers sorted tiers kept) b.file_name
          (unfold tier_hook in tier_hook-Keeps supported sorted tiers kept b.file_name) (rw e m)))

-- Whatever the tiers and the licence, the supported build deletes no file that the community build
-- would not delete.
pub apply_retention_at-supported_le :
    (sorter : SortSlice) (allowed : Bool) (clock : Time) (bs : List BackupEntry)
    (p : RetentionPolicy) (now : Time) (s c : List Bytes)
    → apply_retention_at sorter supported allowed clock bs p now ≡ some s
    → apply_retention_at sorter community allowed clock bs p now ≡ some c
    → (k : Bytes) → In k s
    → In k c
unfolding apply_retention_at
apply_retention_at-supported_le sorter allowed clock [] p now s c hs hc k i =
    let e : s ≡ c = cc in subst (In k) e i
apply_retention_at-supported_le sorter allowed clock (b ∷ bs) p now s c hs hc k i =
    let sorted = sorter.sort BackupEntry newest_first (b ∷ bs) in
    elim (Option-cases (chain_dependencies sorted)) [
      | inl stuck ↦ cc (rw (stuck, apply_retention_at) at hs)
      | inr (needed, e) ↦
          let hs' : some (decide supported allowed p (effective_now clock now) sorted needed)
              ≡ some s =
            rw (e, apply_retention_at) at hs in
          let hc' : some (decide community allowed p (effective_now clock now) sorted needed)
              ≡ some c =
            rw (e, apply_retention_at) at hc in
          let es : s ≡ decide supported allowed p (effective_now clock now) sorted needed = cc in
          let ec : decide community allowed p (effective_now clock now) sorted needed ≡ c = cc in
          subst (In k) ec
            (decide_mono allowed p (effective_now clock now) sorted needed k (subst (In k) es i))
    ]
