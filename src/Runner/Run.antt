-- ===== src/Runner/Run.antt =====
-- The second part of `Run` in src/internal/scheduler/runner/runner.go, behind the choice of the
-- strategy: name, base, pipeline, upload, sidecar and hooks; and the whole run of one backup. Hooks that
-- are called are listed in their order, the second with DBB_STATUS and DBB_FILENAME. Progress, timings
-- and log lines are left out.
use db_backup.Base.{
  ℕ, ◌≡◌, ◌≢◌, Bool, not, ◌&&◌, ◌>>=◌, ◌||◌, List, [], ◌∷◌, ◌++◌, Option, none, some, Bytes, codes,
  bytes_eq, if◌then◌else◌, mem, map, ◌==◌,
}
use db_backup.Text.{to_lower, trim_suffix, equal_fold}
use db_backup.SortSlice.{SortSlice}
use db_backup.Storage.Interface.{Entry, Storage, Status, done, not_exist}
use db_backup.Storage.Interface
use db_backup.Compress.Codec.{parse_codec, extension}
use db_backup.Retention.Listing.{Readers, Sidecar}
use db_backup.Retention.Prune.Delete.{sidecar_name}
use db_backup.Runner.Chain.{join_non_empty, find_last_chain_parent, find_last_full_backup}
use db_backup.Runner.Names.{format_extension, expand_filename, unique_backup_name}
use db_backup.Runner.Strategy.{
  Job, World, refused, nothing, going, start_run, go, refuse, panic, plan_run, job_prefix, is_full,
  configured_strategy, db_name,
}

pub data Verdict : Type 0 where
  fine failed panicked : Verdict

pub data Hook : Type 0 where
  pre : Hook
  post : Bytes → Bytes → Hook

-- What the sidecar records of the chain, and of the backup.
pub record Meta : Type 0 where
  pub sidecar : Sidecar
  pub db_type : Bytes
  pub db : Bytes
  pub chain_depth : ℕ
  pub file_name : Bytes

-- What a run takes from outside the repository: `path.Match`, the regular expressions of
-- `ParseBackupFilename`, Go's replacer and JSON.
pub record Tools : Type 0 where
  pub path_match : Bytes → Bytes → Bool
  pub parses : Bytes → Bool
  pub replacer : List (Bytes × Bytes) → Bytes → Bytes
  pub marshal : Meta → Bytes

-- What happens to a storage outside of its interface. An `Upload` whose reader breaks off fails, and may
-- leave anything under its own path.
pub record Broken (st : Storage) : Type 0 where
  pub upload_broken : Bytes → st.State → st.State
  pub broken_frame :
      (p q : Bytes) (s : st.State) → q ≢ p → st.content (upload_broken p s) q ≡ st.content s q
  -- `os.Remove` of a path and `os.Symlink` in its place, whether they fail or not.
  pub relink : Bytes → Bytes → st.State → st.State
  pub relink_frame :
      (p target q : Bytes) (s : st.State)
      → q ≢ p
      → st.content (relink p target s) q ≡ st.content s q

unfoldable pub has_checksum : Bytes → Bool
unfolding to_lower mem
has_checksum checksum = mem (to_lower checksum) (codes "md5" ∷ codes "sha1" ∷ codes "sha-1" ∷ [])

abbrev pub is_taken : List Entry → Bytes → Bool
is_taken es c =
    mem c (map (λ (e : Entry). e.path) es)
    || mem c (map (λ (e : Entry). trim_suffix e.path (codes ".json")) es)

abbrev or_empty : Option Bytes → Bytes
or_empty none = []
or_empty (some p) = p

unfoldable pub planned_name : Tools → World → Job → Bytes → Bytes
unfolding expand_filename format_extension parse_codec extension
planned_name tools w j strat =
    expand_filename tools.replacer j.template j.db_type w.tokens strat
    ++ format_extension j.db_type
    ++ extension (parse_codec j.compression)
    ++ or_empty w.encryption

-- `NewReplacer(",", "_", "/", "_")`
unfoldable pub underscore : Bytes → Bytes
underscore [] = []
underscore (c ∷ s) = (if c == b',' || c == b'/' then b'_' else c) ∷ underscore s

abbrev pub asks_latest : Job → Bool
asks_latest j = j.create_latest && equal_fold j.backend (codes "filesystem")

-- The path of the link that `createLatestSymlink` sets.
unfoldable pub latest_name : World → Job → Bytes
unfolding join_non_empty
latest_name w j =
    codes "latest-"
    ++ join_non_empty (codes "_") (j.db_type ∷ underscore w.tokens.db ∷ w.tokens.host ∷ [])

-- The position that the sidecar records.
abbrev pub position_now : World → Job → Bytes
position_now w j =
    if is_full (configured_strategy j) || not w.incremental_allowed then [] else or_empty w.position

abbrev pub dumped : World → Bytes → Bytes → Option Bytes
dumped w strat since = if is_full strat then w.dump_to else w.run_backup strat since

-- What the goroutine writes to the pipe; none if it closes the pipe with an error.
unfoldable pub produced : World → Bytes → Bytes → Option Bytes
produced w strat since =
    if w.encrypt_starts && w.compress_starts
    then (do raw ← dumped w strat since; packed ← w.compress raw; w.encrypt packed)
    else none

module _ (tools : Tools) (sorter : SortSlice) (st : Storage) (br : Broken st) (io : Readers) where
  open st use {State, list, upload}

  unfoldable pub file_name : World → Job → Bytes → State → Bytes
  unfolding planned_name unique_backup_name
  file_name w j strat s = if w.dry_run then planned_name tools w j strat else elim (list [] s) [
    | none ↦ planned_name tools w j strat
    | some es ↦ unique_backup_name tools.parses (is_taken es) (planned_name tools w j strat)
  ]

  unfoldable pub base_file : World → Job → Bytes → State → Bytes
  unfolding find_last_chain_parent find_last_full_backup
  base_file w j strat s =
      if w.dry_run || is_full strat
      then []
      else if bytes_eq strat (codes "differential")
      then find_last_full_backup sorter st io (job_prefix w j) s
      else find_last_chain_parent sorter st io (job_prefix w j) s

  abbrev pub meta : World → Job → Bytes → ℕ → Bytes → Bytes → Meta
  meta w j strat depth base f = record {
    sidecar = record {
      strategy = strat;
      base = base;
      timestamp = w.timestamp;
      position = position_now w j;
    };
    db_type = j.db_type;
    db = db_name j;
    chain_depth = depth;
    file_name = f;
  }

  -- `WriteSidecar`, whose failure is only logged.
  unfoldable pub write_sidecar : Job → Bytes → Meta → State → State
  unfolding has_checksum sidecar_name
  write_sidecar j f m s =
      if has_checksum j.checksum then (upload (sidecar_name f) (tools.marshal m) s).1 else s

  -- `createLatestSymlink`, whose failure is only logged.
  unfoldable pub create_latest_symlink : World → Job → Bytes → State → State
  unfolding latest_name
  create_latest_symlink w j f s = if asks_latest j then br.relink (latest_name w j) f s else s

  abbrev pub Result : Type 0
  Result = Verdict × List Hook × State

  abbrev pub ended : Verdict → Bytes → Bytes → State → Result
  ended v status f s = (v, pre ∷ post status f ∷ [], s)

  abbrev pub after_upload : World → Job → Bytes → Meta → Status × State → Result
  after_upload w j f m (done, s) =
      ended fine (codes "ok") f (write_sidecar j f m (create_latest_symlink w j f s))
  after_upload w j f m (not_exist, s) = ended failed (codes "failed") f s
  after_upload w j f m (Interface.failed, s) = ended failed (codes "failed") f s

  -- The pipeline, and what comes behind it.
  abbrev pub deliver : World → Job → Bytes → Meta → Option Bytes → State → Result
  deliver w j f m none s =
      ended failed (codes "failed") f (if w.dry_run then s else br.upload_broken f s)
  deliver w j f m (some bytes) s =
      if w.dry_run then ended fine (codes "ok") f s else after_upload w j f m (upload f bytes s)

  unfoldable pub make_backup : World → Job → Bytes → ℕ → Bytes → State → Result
  unfolding file_name base_file write_sidecar create_latest_symlink produced
  make_backup w j strat depth since s =
      let f = file_name w j strat s in
      if w.encryptor_builds && w.connects
      then deliver w j f (meta w j strat depth (base_file w j strat s) f) (produced w strat since) s
      else ended failed (codes "failed") f s

  unfoldable pub run_one : World → Job → State → Result
  unfolding start_run plan_run make_backup
  run_one w j s =
      if w.tls_builds
      then elim (start_run tools.path_match w j) [
        | refused ↦ (failed, pre ∷ [], s)
        | nothing ↦ (fine, pre ∷ [], s)
        | going ↦ elim (plan_run sorter st io w j s) [
          | refuse ↦ (failed, pre ∷ [], s)
          | panic ↦ (panicked, pre ∷ [], s)
          | go strat depth since ↦ make_backup w j strat depth since s
        ]
      ]
      else (failed, [], s)
