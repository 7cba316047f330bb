-- ===== src/Config.antt =====
-- Choices that src/internal/config/jobs.go and config.go make for a job. `path_match` stands for Go's
-- `path.Match`, an error of which counts as no match.
use db_backup.Base.{Bool, ◌||◌, List, Bytes, codes, bytes_eq, [], any_of, if◌then◌else◌}

unfoldable pub glob_match_any : (Bytes → Bytes → Bool) → List Bytes → Bytes → Bool
unfolding bytes_eq
glob_match_any path_match patterns s =
    any_of (λ p. bytes_eq p s || bytes_eq p (codes "*") || path_match p s) patterns

-- The fields of `DatabaseList` that choose databases.
pub record DatabaseList : Type 0 where
  pub included : List Bytes
  pub excluded : List Bytes

-- `DatabaseList.Excluded`
unfoldable pub is_excluded : (Bytes → Bytes → Bool) → DatabaseList → Bytes → Bool
unfolding glob_match_any
is_excluded path_match list name = glob_match_any path_match list.excluded name

-- `BackupConfig.EffectiveStrategy`, of the strategy and the type that are configured.
unfoldable pub effective_strategy : Bytes → Bytes → Bytes
effective_strategy strategy kind =
    if bytes_eq strategy [] then if bytes_eq kind [] then codes "full" else kind else strategy
