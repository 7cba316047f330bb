-- ===== src/Runner/Strategy.antt =====
-- The first part of `Run` in src/internal/scheduler/runner/runner.go: what is refused, and by which
-- strategy the backup is made. The answers of databases, of the licence and of the clock are the
-- fields of `World`.
use db_backup.Base.{
  ℕ, Bool, not, ◌&&◌, ◌||◌, List, [], ◌∷◌, Option, none, some, Bytes, codes, bytes_eq, ltb, length,
  if◌then◌else◌, mem, ℤ,
}
use db_backup.Text.{equal_fold, join, to_lower}
use db_backup.Config.{DatabaseList, effective_strategy}
use db_backup.SortSlice.{SortSlice}
use db_backup.Storage.Interface.{Storage}
use db_backup.Retention.Listing.{Readers}
use db_backup.Runner.Chain.{
  backup_prefix, BackupConfig, chain_info, find_last_position, position_anchored,
  should_reset_chain, no_reset, no_base, too_deep, too_old,
}
use db_backup.Runner.Databases.{has_all_token, expand_all_include}
use db_backup.Runner.Names.{Tokens}

-- The fields of `config.JobConfig` that a run reads.
pub record Job : Type 0 where
  pub db_type : Bytes
  pub databases : Option DatabaseList
  pub split_db : Bool
  pub backend : Bytes
  pub storage_path : Bytes
  pub checksum : Bytes
  pub compression : Bytes
  pub strategy : Bytes
  pub kind : Bytes
  pub template : Bytes
  pub create_latest : Bool
  pub limits : BackupConfig

pub record World : Type 0 where
  pub dry_run : Bool
  pub tls_builds : Bool
  -- `ListDatabases`
  pub discovered : Option (List Bytes)
  -- The extension of the encryption, if one is configured, and whether the edition has it.
  pub encryption : Option Bytes
  pub encryption_allowed : Bool
  pub encryptor_builds : Bool
  pub storage_allowed : Bool
  pub storage_builds : Bool
  pub incremental_allowed : Bool
  pub engine_registered : Bool
  pub probe_passes : Bool
  pub connects : Bool
  -- Nanoseconds since 1970.
  pub now : ℤ
  pub parse_duration : Bytes → Option ℤ
  pub tokens : Tokens
  pub timestamp : Bytes
  -- The writers of the encryption and of the compression start.
  pub encrypt_starts : Bool
  pub compress_starts : Bool
  -- `dumpTo`, and `database.RunBackup` of a strategy and a position to start from.
  pub dump_to : Option Bytes
  pub run_backup : Bytes → Bytes → Option Bytes
  -- What a writer has written when it is closed, of all that was written to it.
  pub compress : Bytes → Option Bytes
  pub encrypt : Bytes → Option Bytes
  -- `GetPosition`, where it succeeds.
  pub position : Option Bytes

abbrev pub includes : Option DatabaseList → List Bytes
includes none = []
includes (some list) = list.included

abbrev pub excludes : Option DatabaseList → List Bytes
excludes none = []
excludes (some list) = list.excluded

abbrev pub db_name : Job → Bytes
db_name j = join (includes j.databases) (codes ",")

abbrev pub is_full : Bytes → Bool
is_full strat = bytes_eq strat (codes "full")

-- `configuredStrat`
unfoldable pub configured_strategy : Job → Bytes
unfolding effective_strategy join
configured_strategy j =
    if bytes_eq (db_name j) (codes "__globals__")
    then codes "full"
    else effective_strategy j.strategy j.kind

abbrev pub lacks_path : Job → Bool
lacks_path j = bytes_eq j.storage_path [] && equal_fold j.backend (codes "filesystem")

-- All databases in one file have no strategy but full.
abbrev pub is_all_at_once : Job → Bool
is_all_at_once j =
    not (is_full (configured_strategy j)) && has_all_token (includes j.databases) && not j.split_db

abbrev pub must_list : Job → Bool
must_list j =
    not j.split_db
    && has_all_token (includes j.databases)
    && (ltb 0 (length (excludes j.databases)) || ltb 1 (length (includes j.databases)))

abbrev pub needs_licence : Bytes → Bool
needs_licence backend = mem (to_lower backend) (codes "azure" ∷ codes "gcs" ∷ [])

-- What stands before the choice of the strategy: the run is refused, has nothing to do, or goes on.
pub data Start : Type 0 where
  refused nothing going : Start

abbrev listed : Option (List Bytes) → Start
listed none = refused
listed (some []) = nothing
listed (some (d ∷ ds)) = going

unfoldable pub check_editions : World → Job → Start
unfolding mem to_lower
check_editions w j =
    if not w.encryption_allowed
    then refused
    else if needs_licence j.backend && not w.storage_allowed
    then refused
    else if not w.dry_run && not w.storage_builds
    then refused
    else going

module _ (path_match : Bytes → Bytes → Bool) where
  abbrev kept_databases : World → Option DatabaseList → Option (List Bytes)
  kept_databases w none = w.discovered
  kept_databases w (some list) = elim w.discovered [
    | none ↦ none
    | some names ↦ some (expand_all_include path_match names list)
  ]

  unfoldable pub start_run : World → Job → Start
  unfolding check_editions configured_strategy has_all_token equal_fold expand_all_include
  start_run w j =
      if lacks_path j || is_all_at_once j
      then refused
      else if must_list j
      then elim (listed (kept_databases w j.databases)) [
        | refused ↦ refused
        | nothing ↦ nothing
        | going ↦ check_editions w j
      ]
      else check_editions w j

-- The test of the edition, of the engine and of the server; none is a refusal.
unfoldable pub supported_strategy : World → Bytes → Bytes → Option Bytes
supported_strategy w name strat =
    if is_full strat || bytes_eq name []
    then some strat
    else if not w.incremental_allowed
    then some (codes "full")
    else if not w.engine_registered
    then none
    else if not w.probe_passes
    then some (codes "full")
    else some strat

-- `strat`, `chainDepth` and `since`; a dry run has no storage to ask for a chain, so the call through
-- the nil interface panics.
pub data Plan : Type 0 where
  go : Bytes → ℕ → Bytes → Plan
  refuse panic : Plan

abbrev pub job_prefix : World → Job → Bytes
job_prefix w j = backup_prefix j.db_type w.tokens.db w.tokens.host

module _ (sorter : SortSlice) (st : Storage) (io : Readers) where
  open st use {State}

  abbrev pub plan_anchor : World → Job → Bytes → Bytes → ℕ → State → Plan
  plan_anchor w j prefix strat depth s =
      if position_anchored j.db_type
      then elim (find_last_position sorter st io prefix strat s) [
        | [] ↦ go (codes "full") depth []
        | c ∷ since ↦ go strat depth (c ∷ since)
      ]
      else go strat depth []

  abbrev pub plan_chain : World → Job → Bytes → Bytes → State → Plan
  plan_chain w j prefix strat s =
      let chain = chain_info sorter st io prefix s in
      elim (should_reset_chain w.parse_duration w.now (some j.limits) chain) [
        | no_reset ↦ plan_anchor w j prefix strat chain.depth s
        | no_base ↦ go (codes "full") chain.depth []
        | too_deep ↦ go (codes "full") chain.depth []
        | too_old ↦ go (codes "full") chain.depth []
      ]

  abbrev pub plan_strategy : World → Job → Bytes → Bytes → State → Plan
  plan_strategy w j prefix strat s =
      if is_full strat
      then go strat 0 []
      else if w.dry_run
      then panic
      else plan_chain w j prefix strat s

  unfoldable pub plan_run : World → Job → State → Plan
  unfolding supported_strategy configured_strategy backup_prefix chain_info find_last_position
      should_reset_chain position_anchored join
  plan_run w j s = elim (supported_strategy w (db_name j) (configured_strategy j)) [
    | none ↦ refuse
    | some strat ↦ plan_strategy w j (job_prefix w j) strat s
  ]
