-- ===== src/Retention/Examples.antt =====
-- Concrete runs of the retention code.
use db_backup.Base.{
  ℕ, ap, ◌≡◌, refl, true, false, List, [], ◌∷◌, Option, none, some, Bytes, codes, pos, mem,
  bytes_eq, bytes_eq_iff, ◌∙◌, sym, ◌↔◌, ◌+◌, ◌<◌, ◌≤◌, length, All, ◌⊎◌, In, inl, inr, arith,
}
use db_backup.Clock.{Time, is_zero}
use db_backup.SortSlice.{by_insertion, insertion_sort}
use db_backup.Retention.Policy.{is_valid, is_positive, BackupEntry, RetentionPolicy}
use db_backup.Retention.Chain.Walk.{chain_dependencies, find_entry}
use db_backup.Retention.Chain.Closure.{Needed, chain_dependencies-iff_Needed}
use db_backup.Retention.Tiers.Scan.{community, supported}
use db_backup.Storage.Interface.{Entry, Storage}
use db_backup.Storage.Memory.{memory}
use db_backup.Retention.Listing.{Readers, collect_backups, collect_sidecars}
use db_backup.Retention.Tiers.Scan.{yearly_key, apply_tier}
use db_backup.Retention.Tiers.Budget.{IsDistinct, apply_tier_buckets}
use db_backup.Retention.Prune.Delete.{delete_backups, targets}
use db_backup.Retention.Prune.Settled.{delete_backups_lem}
use db_backup.Retention.Prune.Step.{RetentionConfig, retention_policy, prune_policy, apply_prune}
use db_backup.Retention.Prune.Safety.{Licit, apply_prune-Licit}
use db_backup.Retention.Apply.Defs.{apply_retention_at, newest_first}
use db_backup.Retention.Apply.Fate.{HasUniqueNames}
use db_backup.Retention.Apply.Deleted.{
  apply_retention_at-keeps_Needed, apply_retention_at-keeps_within, apply_retention_at-keeps_last,
}
use db_backup.Retention.Apply.Editions.{
  apply_retention_at-supported_le, apply_retention_at-community_iff, Unprotected,
}

abbrev pub at : ℕ → Time
at n = record { instant = n; zone = pos 0 }

abbrev pub old_full : BackupEntry
old_full = record {
  file_name = codes "a";
  timestamp = at 10;
  strategy = codes "full";
  base = [];
  size = pos 1;
}

abbrev pub base_full : BackupEntry
base_full = record {
  file_name = codes "b";
  timestamp = at 20;
  strategy = codes "full";
  base = [];
  size = pos 1;
}

abbrev pub increment : BackupEntry
increment = record {
  file_name = codes "c";
  timestamp = at 30;
  strategy = codes "incremental";
  base = codes "b";
  size = pos 1;
}

abbrev pub listing : List BackupEntry
listing = old_full ∷ base_full ∷ increment ∷ []

abbrev pub one_left : RetentionPolicy
one_left = record {
  last = pos 1;
  within = pos 5;
  hourly = pos 0;
  daily = pos 0;
  weekly = pos 0;
  monthly = pos 0;
  yearly = pos 0;
}

abbrev pub doomed : List Bytes
doomed = codes "a" ∷ []

pub run :
    apply_retention_at by_insertion supported true (at 40) listing one_left (at 40) ≡ some doomed
unfolding apply_retention_at insertion_sort bytes_eq mem find_entry
run = refl

run_community :
    apply_retention_at by_insertion community true (at 40) listing one_left (at 40) ≡ some doomed
unfolding apply_retention_at insertion_sort bytes_eq mem find_entry
run_community = refl

apart :
    (a b x y : BackupEntry)
    → x ≡ a
    → y ≡ b
    → x.file_name ≡ y.file_name
    → bytes_eq a.file_name b.file_name ≡ false
    → x ≡ y
apart a b x y p q e n =
    let same : a.file_name ≡ b.file_name = cc in
    absurd (cc ((bytes_eq_iff a.file_name b.file_name).1 same))

pub no_twins : HasUniqueNames listing
unfolding bytes_eq
no_twins x y (inl p) (inl q) e = p ∙ sym q
no_twins x y (inl p) (inr (inl q)) e = apart old_full base_full x y p q e refl
no_twins x y (inl p) (inr (inr (inl q))) e = apart old_full increment x y p q e refl
no_twins x y (inr (inl p)) (inl q) e = apart base_full old_full x y p q e refl
no_twins x y (inr (inl p)) (inr (inl q)) e = p ∙ sym q
no_twins x y (inr (inl p)) (inr (inr (inl q))) e = apart base_full increment x y p q e refl
no_twins x y (inr (inr (inl p))) (inl q) e = apart increment old_full x y p q e refl
no_twins x y (inr (inr (inl p))) (inr (inl q)) e = apart increment base_full x y p q e refl
no_twins x y (inr (inr (inl p))) (inr (inr (inl q))) e = p ∙ sym q
no_twins x y (inl p) (inr (inr (inr j))) e = elim j [ ]
no_twins x y (inr (inl p)) (inr (inr (inr j))) e = elim j [ ]
no_twins x y (inr (inr (inl p))) (inr (inr (inr j))) e = elim j [ ]
no_twins x y (inr (inr (inr i))) j e = elim i [ ]

base_Needed : Needed listing (codes "b")
unfolding bytes_eq
base_Needed = Needed.direct increment (codes "b") (inr (inr (inl refl))) refl refl (λ e. cc)

chain_dependencies-iff_Needed_example :
    (out : List Bytes) × (chain_dependencies listing ≡ some out)
    × ((k : Bytes) → (mem k out ≡ true) ↔ Needed listing k)
chain_dependencies-iff_Needed_example = chain_dependencies-iff_Needed listing

apply_retention_at-keeps_Needed_example : ¬ In (codes "b") doomed
apply_retention_at-keeps_Needed_example =
    apply_retention_at-keeps_Needed by_insertion supported true (at 40) listing one_left (at 40)
      doomed run no_twins (codes "b") base_Needed

apply_retention_at-keeps_within_example :
    (b : BackupEntry) × In b listing
    × (b.file_name ≡ codes "a")
    × ((is_zero b.timestamp ≡ true) ⊎ (b.timestamp.instant + 5 < 40))
apply_retention_at-keeps_within_example =
    apply_retention_at-keeps_within by_insertion supported true (at 40) listing one_left (at 40)
      doomed run refl (codes "a") (inl refl)

apply_retention_at-keeps_last_example :
    (b : BackupEntry) × (newest : List BackupEntry) × In b listing
    × (b.file_name ≡ codes "a")
    × (length newest ≡ 1)
    × All
        (λ c.
          In c listing × (In c.file_name doomed → ⊥) × (b.timestamp.instant ≤ c.timestamp.instant))
        newest
apply_retention_at-keeps_last_example =
    apply_retention_at-keeps_last by_insertion supported true (at 40) listing one_left (at 40)
      doomed run 1 refl (codes "a") (inl refl)

apply_retention_at-supported_le_example : In (codes "a") doomed
apply_retention_at-supported_le_example =
    apply_retention_at-supported_le by_insertion true (at 40) listing one_left (at 40) doomed doomed
      run run_community (codes "a") (inl refl)

apply_retention_at-community_iff_example :
    (out : List Bytes) × (apply_retention_at by_insertion community true
        (at 40)
        listing
        one_left
        (at 40)
      ≡ some out)
    × (In (codes "a") out
        ↔ Unprotected one_left
            (at 40)
            (by_insertion.sort BackupEntry newest_first listing)
            (codes "a"))
apply_retention_at-community_iff_example =
    apply_retention_at-community_iff by_insertion true (at 40) listing one_left (at 40) old_full
      (inl refl)

two_old : List BackupEntry
two_old = old_full ∷ base_full ∷ []

apply_tier_buckets_example :
    (buckets : List Bytes) × (length buckets ≤ 1)
    × IsDistinct buckets
    × (length (apply_tier (pos 1) yearly_key two_old []) ≡ 0 + length buckets)
    × ((k : Bytes)
        → mem k buckets ≡ true
        → (b : BackupEntry) × In b two_old
          × (yearly_key b.timestamp ≡ k)
          × (mem b.file_name (apply_tier (pos 1) yearly_key two_old []) ≡ true))
    × ((b : BackupEntry)
        → In b two_old
        → mem b.file_name (apply_tier (pos 1) yearly_key two_old []) ≡ false
        → (length buckets ≡ 1) ⊎ (mem (yearly_key b.timestamp) buckets ≡ true))
apply_tier_buckets_example = apply_tier_buckets 1 yearly_key two_old [] (omega arith)

-- A storage in which the second file refuses to be deleted.
abbrev disk : Storage
disk = memory (codes "b" ∷ [])

abbrev files : Storage.State disk
files = (codes "a", []) ∷ (codes "b", []) ∷ []

delete_backups_lem_example :
    ((f : Bytes) × In f (codes "b" ∷ [])
      × In (codes "b") (targets disk f)
      × ((disk.content (delete_backups disk (codes "b" ∷ []) files).1 (codes "b") ≡ none)
          ⊎ In (codes "b") (delete_backups disk (codes "b" ∷ []) files).0))
    ⊎ ((f : Bytes) → In f (codes "b" ∷ []) → In (codes "b") (targets disk f) → ⊥)
      × (disk.content (delete_backups disk (codes "b" ∷ []) files).1 (codes "b")
          ≡ disk.content files (codes "b"))
delete_backups_lem_example = delete_backups_lem disk (codes "b" ∷ []) files (codes "b")

-- Every file is a backup, and no sidecar is readable.
abbrev readers : Readers
readers = record {
  unmarshal = λ b. none;
  parse_rfc3339 = λ b. none;
  parse_stamp = λ b. none;
  is_backup_file = λ b. true;
}

abbrev keep_one : Option RetentionConfig
keep_one = some (record {
  last = some (pos 1);
  within = [];
  hourly = none;
  daily = none;
  weekly = none;
  monthly = none;
  yearly = none;
})

abbrev entry_of : Bytes → Entry
entry_of p = record { path = p; size = pos 0; mod_time = pos 0 }

abbrev entries : List Entry
entries = entry_of (codes "a") ∷ entry_of (codes "b") ∷ []

paths_differ : (d e : Entry) → In d entries → In e entries → d.path ≡ e.path → d ≡ e
unfolding bytes_eq
paths_differ d e (inl p) (inl q) s = p ∙ sym q
paths_differ d e (inr (inl p)) (inr (inl q)) s = p ∙ sym q
paths_differ d e (inl p) (inr (inl q)) s =
    let same : codes "a" ≡ codes "b" =
      ap (λ (x : Entry). x.path) (sym p) ∙ (s ∙ ap (λ (x : Entry). x.path) q) in
    absurd (cc ((bytes_eq_iff (codes "a") (codes "b")).1 same))
paths_differ d e (inr (inl p)) (inl q) s =
    let same : codes "b" ≡ codes "a" =
      ap (λ (x : Entry). x.path) (sym p) ∙ (s ∙ ap (λ (x : Entry). x.path) q) in
    absurd (cc ((bytes_eq_iff (codes "b") (codes "a")).1 same))
paths_differ d e (inl p) (inr (inr j)) s = elim j [ ]
paths_differ d e (inr (inl p)) (inr (inr j)) s = elim j [ ]
paths_differ d e (inr (inr i)) j s = elim i [ ]

apply_prune-Licit_example :
    (disk.content
        (apply_prune by_insertion community false (at 40) disk readers true keep_one files).1
        (codes "a")
      ≡ disk.content files (codes "a"))
    ⊎ ((p : RetentionPolicy) × (prune_policy false (retention_policy community false keep_one)
          ≡ some p)
        × (is_valid p ≡ true)
        × ((false ≡ true) ⊎ (is_positive p.last ≡ true) ⊎ (is_positive p.within ≡ true))
        × Licit by_insertion community false
            (at 40)
            disk
            readers
            (collect_backups disk readers (collect_sidecars disk readers files entries []) entries)
            p
            (codes "a"))
apply_prune-Licit_example =
    apply_prune-Licit by_insertion community false (at 40) disk readers true keep_one files entries
      refl paths_differ (codes "a")
