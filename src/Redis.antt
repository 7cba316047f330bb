-- ===== src/Redis.antt =====
-- The Redis engine's dump and restore: src/internal/database/engine/redis and the argument splitter of
-- src/internal/database/common/helpers.go.
mod Args
mod Tokens
mod Lines
mod Data
mod Dump
mod Keys
mod Stream
mod Restore
mod Session
mod Reads
mod Pairs
mod Rebuild
mod Expiry
mod Writers
mod Collections
mod Replies
mod Text
mod RoundTrip
mod Examples
