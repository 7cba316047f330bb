-- ===== src/Retention/Chain.antt =====
-- `chainDependencies` of src/internal/retention/retention.go: the files that incremental and
-- differential backups need for a restore.
pub mod Walk
pub mod Closure
