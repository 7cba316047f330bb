-- ===== src/Restore.antt =====
-- `cmdRestore` of src/cmd/dbb/restore.go: which backups a restore needs, and how it applies them.
mod Chain
mod Links
mod Kept
mod Replay
mod AfterRun
mod Codec
mod Examples
