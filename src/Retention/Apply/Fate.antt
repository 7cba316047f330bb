-- ===== src/Retention/Apply/Fate.antt =====
-- The facts on one deleted file, and the order of the listing, for the theorems on
-- `apply_retention_at`.
use mathlib.Core.List.{Permᴰ}
use db_backup.Base.{
  ◌+◌, ◌<◌, ◌≡◌, ◌≢◌, ◌↔◌, refl, sym, subst, Bool, true, false, ◌&&◌, ◌||◌, List, [], ◌∷◌, some,
  Bytes, mem, bytes_eq, arith, pos_part, bytes_eq_iff, Bool-cases, inl, inr, ◌⊎◌, In, any_of_intro,
  bytes_eq_refl, any_of-false,
}
use db_backup.Clock.{Time, is_zero}
use db_backup.SortSlice.{SortSlice, Permᴰ-In}
use db_backup.Retention.Policy.{BackupEntry, RetentionPolicy, is_positive}
use db_backup.Retention.Chain.Walk.{find_entry}
use db_backup.Retention.Chain.Closure.{Needed, chain_dependencies-iff_Needed}
use db_backup.Retention.Tiers.Scan.{Build, tier_hook, tier_hook-Keeps}
use db_backup.Retention.Apply.Defs.{
  newest_first, to_delete, base_kept, granted, effective_now, cutoff, decide, apply_retention_at,
}
use db_backup.Retention.Apply.Kept.{
  named, in_window, named_in_window, rule_needed, rule_within, rule_last, mem-base_kept,
}

pub In-to_delete :
    (k : Bytes) (kept : List Bytes) (bs : List BackupEntry)
    → In k (to_delete kept bs)
    → (mem k kept ≡ false) × (b : BackupEntry) × In b bs × (b.file_name ≡ k)
unfolding to_delete
In-to_delete k kept [] i = elim i [ ]
In-to_delete k kept (b ∷ bs) i = elim (Bool-cases (mem b.file_name kept)) [
  | inl old ↦
      let (m, x, j, e) = In-to_delete k kept bs (rw (old, to_delete) at i) in (m, x, inr j, e)
  | inr new ↦ elim (split (rw (new, to_delete) at i)) [
    | inl e ↦ (rw e new, b, inl refl, sym e)
    | inr j ↦ let (m, x, j', e) = In-to_delete k kept bs j in (m, x, inr j', e)
  ]
]
  where
    split : In k (b.file_name ∷ to_delete kept bs) → (k ≡ b.file_name) ⊎ In k (to_delete kept bs)
    split h = h

pub to_delete-In :
    (kept : List Bytes) (bs : List BackupEntry) (b : BackupEntry)
    → In b bs
    → mem b.file_name kept ≡ false
    → In b.file_name (to_delete kept bs)
unfolding to_delete
to_delete-In kept [] b i m = elim i [ ]
to_delete-In kept (x ∷ bs) b (inl e) m = rw e (rw (rw e at m, to_delete) (inl refl))
to_delete-In kept (x ∷ bs) b (inr i) m = elim (Bool-cases (mem x.file_name kept)) [
  | inl old ↦ rw (old, to_delete) (to_delete-In kept bs b i m)
  | inr new ↦ rw (new, to_delete) (inr (to_delete-In kept bs b i m))
]

-- Two backups of the listing with one name are one.
abbrev pub HasUniqueNames : List BackupEntry → Type 0
HasUniqueNames bs = (a b : BackupEntry) → In a bs → In b bs → a.file_name ≡ b.file_name → a ≡ b

pub find_entry-In :
    (bs : List BackupEntry) (k : Bytes) (b : BackupEntry)
    → find_entry bs k ≡ some b
    → In b bs × (b.file_name ≡ k)
unfolding find_entry
find_entry-In [] k b h = cc
find_entry-In (x ∷ bs) k b h = ground (arith, find_entry-In bs k b, bytes_eq_iff x.file_name k)

find_entry-some :
    (bs : List BackupEntry) (b : BackupEntry)
    → In b bs
    → (c : BackupEntry) × (find_entry bs b.file_name ≡ some c)
unfolding find_entry
find_entry-some [] b i = elim i [ ]
find_entry-some (x ∷ bs) b i = elim (Bool-cases (bytes_eq x.file_name b.file_name)) [
  | inl same ↦ (x, rw same)
  | inr other ↦
      let rest : In b bs = ground (arith, bytes_eq_iff x.file_name b.file_name) in
      let (c, e) = find_entry-some bs b rest in (c, rw (other, find_entry) e)
]

-- Which files are needed does not depend on the order of a listing with unique names.
pub Needed-transfer :
    (bs cs : List BackupEntry)
    → HasUniqueNames bs
    → ((b : BackupEntry) → In b bs → In b cs)
    → ((b : BackupEntry) → In b cs → In b bs)
    → (k : Bytes) → Needed bs k
    → Needed cs k
Needed-transfer bs cs u to from k (Needed.direct b _ i f e n) = Needed.direct b k (to b i) f e n
Needed-transfer bs cs u to from k (Needed.further j b _ need f e n) =
    let (i, name) = find_entry-In bs j b f in
    let (c, found) = find_entry-some cs b (to b i) in
    let (i', name') = find_entry-In cs b.file_name c found in
    let same : c ≡ b = u c b (from c i') i name' in
    Needed.further j b k (Needed-transfer bs cs u to from j need) (cc (found, same, name)) e n

pub false_of_Keeps :
    (kept out : List Bytes) (k : Bytes)
    → (mem k kept ≡ true → mem k out ≡ true)
    → mem k out ≡ false
    → mem k kept ≡ false
false_of_Keeps kept out k h m = ground arith

-- A backup that the `within` rule does not keep is older than the window.
pub outside_window :
    (k : Bytes) (p : RetentionPolicy) (t : Time) (bs : List BackupEntry) (b : BackupEntry)
    → rule_within p t bs k ≡ false
    → In b bs
    → b.file_name ≡ k
    → is_positive p.within ≡ true
    → (is_zero b.timestamp ≡ true) ⊎ (b.timestamp.instant + pos_part p.within < t.instant)
outside_window k p t bs b r i e w =
    let none_in : named_in_window k (cutoff p t) bs ≡ false = rw w at r in
    let out =
      any_of-false (λ x. bytes_eq k x.file_name && in_window (cutoff p t) x) bs b none_in i in
    let same : bytes_eq k b.file_name ≡ true = rw e (bytes_eq_refl k) in
    let out' : in_window (cutoff p t) b ≡ false = rw same at out in ground arith

pub not_named :
    (k : Bytes) (bs : List BackupEntry) (b : BackupEntry)
    → named k bs ≡ false
    → In b bs
    → b.file_name ≢ k
not_named k bs b h i e =
    let no_match = any_of-false (λ x. bytes_eq k x.file_name) bs b h i in
    cc (bytes_eq_refl k, no_match, e)

module _ (sorter : SortSlice) (build : Build) (allowed : Bool) (clock : Time)
    (bs : List BackupEntry) (p : RetentionPolicy) (now : Time) where
  abbrev pub sorted : List BackupEntry
  sorted = sorter.sort BackupEntry newest_first bs

  abbrev pub at : Time
  at = effective_now clock now

  pub sorted-In : (b : BackupEntry) → In b sorted → In b bs
  sorted-In b i = Permᴰ-In b (sorter.perm BackupEntry newest_first bs) i

  pub In-sorted : (b : BackupEntry) → In b bs → In b sorted
  In-sorted b i = Permᴰ-In b (back (sorter.perm BackupEntry newest_first bs)) i
    where
      back : {xs ys : List BackupEntry} → Permᴰ xs ys → Permᴰ ys xs
      back Permᴰ.nil = Permᴰ.nil
      back (Permᴰ.cons e q) = Permᴰ.cons (sym e) (back q)
      back (Permᴰ.swap e f) = Permᴰ.swap (sym f) (sym e)
      back (Permᴰ.trans q r) = Permᴰ.trans (back r) (back q)

  -- The facts on one deleted file from which the theorems below follow.
  pub record Fate (k : Bytes) : Type 0 where
    pub entry : BackupEntry
    pub listed : In entry bs
    pub name : entry.file_name ≡ k
    pub not_needed : Needed sorted k → ⊥
    pub not_within : rule_within p at sorted k ≡ false
    pub not_last : rule_last p sorted k ≡ false

  decide-Fate :
      (needed : List Bytes)
      → ((j : Bytes) → (mem j needed ≡ true) ↔ Needed sorted j)
      → (k : Bytes) → In k (decide build allowed p at sorted needed)
      → Fate k
  unfolding decide
  decide-Fate needed iff k i =
      let kept = base_kept sorted p at needed in
      let (m, b, j, e) =
        In-to_delete k (tier_hook build sorted (granted allowed p) kept) sorted i in
      let low : mem k kept ≡ false =
        false_of_Keeps kept (tier_hook build sorted (granted allowed p) kept) k
          (tier_hook-Keeps build sorted (granted allowed p) kept k) m in
      let rules = mem-base_kept k sorted p at needed in
      let here : named k sorted ≡ true = any_of_intro _ sorted b j (rw e (bytes_eq_refl k)) in
      record {
        entry = b;
        listed = sorted-In b j;
        name = e;
        not_needed = λ need. cc (fires needed ((iff k).1 need) here rules low);
        not_within = ground arith;
        not_last = ground arith;
      }
    where
      fires :
          (needed : List Bytes)
          → mem k needed ≡ true
          → named k sorted ≡ true
          → mem k (base_kept sorted p at needed)
            ≡ ((rule_needed needed sorted k || rule_within p at sorted k) || rule_last p sorted k)
          → mem k (base_kept sorted p at needed) ≡ false
          → true ≡ false
      fires needed a b c d = ground arith

-- The result in terms of the names that the sorted listing needs.
pub apply_retention_at_lem :
    (sorter : SortSlice) (build : Build) (allowed : Bool) (clock : Time) (b : BackupEntry)
    (bs : List BackupEntry) (p : RetentionPolicy) (now : Time)
    → (needed : List Bytes) × ((j : Bytes)
        → (mem j needed ≡ true) ↔ Needed (sorted sorter build allowed clock (b ∷ bs) p now) j)
      × (apply_retention_at sorter build allowed clock (b ∷ bs) p now
          ≡ some (
              decide build allowed p
                (effective_now clock now)
                (sorted sorter build allowed clock (b ∷ bs) p now)
                needed))
unfolding apply_retention_at
apply_retention_at_lem sorter build allowed clock b bs p now =
    let (needed, e, iff) =
      chain_dependencies-iff_Needed (sorted sorter build allowed clock (b ∷ bs) p now) in
    (needed, iff, rw (e, apply_retention_at))

pub apply_retention_at-Fate :
    (sorter : SortSlice) (build : Build) (allowed : Bool) (clock : Time) (bs : List BackupEntry)
    (p : RetentionPolicy) (now : Time) (out : List Bytes)
    → apply_retention_at sorter build allowed clock bs p now ≡ some out
    → (k : Bytes) → In k out
    → Fate sorter build allowed clock bs p now k
unfolding apply_retention_at
apply_retention_at-Fate sorter build allowed clock [] p now out e k i =
    let e' : [] ≡ out = cc in absurd (subst (In k) (sym e') i)
apply_retention_at-Fate sorter build allowed clock (b ∷ bs) p now out e k i =
    let (needed, iff, e') = apply_retention_at_lem sorter build allowed clock b bs p now in
    let same : out
        ≡ decide build allowed p (effective_now clock now)
            (sorted sorter build allowed clock (b ∷ bs) p now) needed =
      cc in
    decide-Fate sorter build allowed clock (b ∷ bs) p now needed iff k (subst (In k) same i)
