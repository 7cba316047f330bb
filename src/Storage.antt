-- ===== src/Storage.antt =====
-- The interface `Storage` of src/internal/storage/storage.go as its clients see it: operations on a
-- state, and what each may do to the files. A backend may fail at any call.
pub mod Memory
pub mod Interface
