-- ===== src/Runner/Examples.antt =====
-- Concrete chains, names and runs.
use db_backup.Base.{
  ◌≡◌, ◌≢◌, ◌≤◌, ◌<◌, ◌↔◌, ◌⊎◌, refl, Bool, true, false, List, [], ◌∷◌, Option, none, some, Bytes,
  codes, ℕ, ℤ, pos, arith, bytes_eq, mem, map,
}
use db_backup.Text.{equal_fold, trim_space, has_prefix, has_suffix}
use db_backup.Clock.{decimal}
use db_backup.Config.{DatabaseList, is_excluded}
use db_backup.SortSlice.{by_insertion, insertion_sort}
use db_backup.Storage.Interface.{Storage}
use db_backup.Storage.Memory.{Files, find, memory}
use db_backup.Retention.Listing.{Readers, read_sidecar}
use db_backup.Retention.Prune.Delete.{sidecar_name}
use db_backup.Runner.Chain.{too_old, should_reset_chain}
use db_backup.Runner.FullAfter.{should_reset_chain_never_too_old}
use db_backup.Runner.Databases.{expand_all_include}
use db_backup.Runner.Expand.{AreDistinct, Names, IsWanted, IsNamed, expand_all_include_iff}
use db_backup.Runner.Names.{unique_backup_name, IsUnusable, unique_backup_name_free}
use db_backup.Runner.Strategy.{Job, World, go, plan_run}
use db_backup.Runner.Run.{Verdict, panicked, Hook, Tools, Broken, run_one, asks_latest}
use db_backup.Runner.Fan.{IsOutput, run, run_frame}

-- A reader that takes every text for one hour.
abbrev one_hour : Bytes → Option ℤ
one_hour s = some (pos 3_600_000_000_000)

-- A full backup that is one day old.
should_reset_chain_never_too_old_example :
    should_reset_chain one_hour
      (pos 1_700_086_400_000_000_000)
      (some (record { full_every = pos 0; full_after = codes "1h" }))
      (record { depth = 3; last_full = pos 1_700_000_000_000_000_000 })
    ≢ too_old
should_reset_chain_never_too_old_example =
    should_reset_chain_never_too_old one_hour 1_700_086_400_000_000_000 1_700_000_000_000_000_000 3
      (some (record { full_every = pos 0; full_after = codes "1h" })) (omega arith) (omega arith)

-- A parser that takes every name, and a storage that has two of them.
abbrev takes_any : Bytes → Bool
takes_any c = true

abbrev two_taken : Bytes → Bool
two_taken c = mem c (codes "shop.sql" ∷ codes "shop-2.sql" ∷ [])

third_name : unique_backup_name takes_any two_taken (codes "shop.sql") ≡ codes "shop-3.sql"
unfolding unique_backup_name mem bytes_eq decimal
third_name = refl

unique_backup_name_free_example :
    (two_taken (unique_backup_name takes_any two_taken (codes "shop.sql")) ≡ false)
    ⊎ ((unique_backup_name takes_any two_taken (codes "shop.sql") ≡ codes "shop.sql")
        × ((i : ℕ) → 2 ≤ i → i < 1000 → IsUnusable takes_any two_taken (codes "shop.sql") i))
unique_backup_name_free_example = unique_backup_name_free takes_any two_taken (codes "shop.sql")

abbrev only_equal : Bytes → Bytes → Bool
only_equal p s = false

abbrev all_but_logs : DatabaseList
all_but_logs = record { included = codes "ALL" ∷ codes "extra" ∷ []; excluded = codes "logs" ∷ [] }

abbrev on_server : List Bytes
on_server = codes "shop" ∷ codes "logs" ∷ codes "Extra" ∷ []

expanded : expand_all_include only_equal on_server all_but_logs ≡ codes "shop" ∷ codes "Extra" ∷ []
unfolding expand_all_include is_excluded equal_fold trim_space
expanded = refl

expand_all_include_iff_example :
    AreDistinct (expand_all_include only_equal on_server all_but_logs)
    × (Names (codes "EXTRA") (expand_all_include only_equal on_server all_but_logs) ↔ (
        IsWanted only_equal on_server all_but_logs (codes "EXTRA")
        ⊎ IsNamed only_equal on_server all_but_logs (codes "EXTRA")))
expand_all_include_iff_example =
    expand_all_include_iff only_equal on_server all_but_logs (codes "EXTRA")

-- A disk with a full backup and its sidecar, both of the fifth second.
abbrev pub dated : Storage
dated = record (memory []) {
  list = λ prefix fs.
      some (map (λ (f : Bytes × Bytes). record { path = f.0; size = pos 0; mod_time = pos 5 }) fs);
}

abbrev one_full : Files
one_full =
    (codes "mysql-shop-db1-full-1.sql", codes "rows")
    ∷ (codes "mysql-shop-db1-full-1.sql.json", codes "meta")
    ∷ []

abbrev readers : Readers
readers = record {
  unmarshal = λ b.
      some (record {
        strategy = codes "full";
        base = [];
        timestamp = codes "t";
        position = codes "p1";
      });
  parse_rfc3339 = λ b. none;
  parse_stamp = λ b. none;
  is_backup_file = λ b. true;
}

abbrev pub tools : Tools
tools = record {
  path_match = only_equal;
  parses = takes_any;
  replacer = λ pairs t. t;
  marshal = λ m. codes "meta";
}

abbrev pub lossy : Broken dated
lossy = record {
  upload_broken = λ p s. s;
  broken_frame = λ p q s n. refl;
  relink = λ p target s. s;
  relink_frame = λ p target q s n. refl;
}

abbrev pub nightly : Job
nightly = record {
  db_type = codes "mysql";
  databases = some (record { included = codes "shop" ∷ []; excluded = [] });
  split_db = false;
  backend = codes "s3";
  storage_path = [];
  checksum = codes "md5";
  compression = codes "none";
  strategy = codes "incremental";
  kind = [];
  template = [];
  create_latest = false;
  limits = record { full_every = pos 0; full_after = [] };
}

abbrev pub healthy : World
healthy = record {
  dry_run = false;
  tls_builds = true;
  discovered = none;
  encryption = none;
  encryption_allowed = true;
  encryptor_builds = true;
  storage_allowed = true;
  storage_builds = true;
  incremental_allowed = true;
  engine_registered = true;
  probe_passes = true;
  connects = true;
  now = pos 9;
  parse_duration = one_hour;
  tokens = record { db = codes "shop"; host = codes "db1"; timestamp = codes "2"; others = [] };
  timestamp = codes "t";
  encrypt_starts = true;
  compress_starts = true;
  dump_to = none;
  run_backup = λ strat since. some (codes "changes");
  compress = λ b. some b;
  encrypt = λ b. some b;
  position = some (codes "p2");
}

extends_full :
    plan_run by_insertion dated readers healthy nightly one_full
    ≡ go (codes "incremental") 0 (codes "p1")
unfolding plan_run bytes_eq insertion_sort has_prefix has_suffix read_sidecar sidecar_name
extends_full = refl

-- A dry run has no storage to search for the chain.
dry_incremental :
    (run_one tools by_insertion dated lossy readers
      (record healthy { dry_run = true })
      nightly
      one_full).0
    ≡ panicked
unfolding run_one trim_space
dry_incremental = refl

abbrev outcome : Verdict × List Hook × Files
outcome = run_one tools by_insertion dated lossy readers healthy nightly one_full

run_frame_example :
    (find
        (run tools by_insertion dated lossy readers (λ j. healthy) nightly one_full).2
        (codes "mysql-shop-db1-full-1.sql")
      ≡ some (codes "rows"))
    ⊎ IsOutput tools by_insertion dated lossy readers
        (λ j. healthy)
        (asks_latest nightly)
        (run tools by_insertion dated lossy readers (λ j. healthy) nightly one_full).1
        (codes "mysql-shop-db1-full-1.sql")
unfolding bytes_eq
run_frame_example =
    run_frame tools by_insertion dated lossy readers (λ j. healthy) nightly one_full
      (codes "mysql-shop-db1-full-1.sql")
