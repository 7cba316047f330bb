-- ===== src/Mysql.antt =====
-- The MySQL engine's INSERT statements and its statement splitter:
-- src/internal/database/engine/mysql.
mod Splitter
mod Rows
mod Literals
mod Values
mod Lines
mod Inserts
mod Batches
mod Statements
mod Examples
