-- ===== src/Archive.antt =====
-- Moving old backups to a second storage: src/supported/retention/backend/archive.go.
pub mod Move
pub mod NoLoss
pub mod Choice
pub mod Examples
