-- ===== src/Storage.antt =====
-- The SQLite database of the harness (week03_guarded-harness/src/guarded_harness/storage.py).
pub mod Table
pub mod Rows
pub mod Exec
pub mod Inversion
pub mod Atomic
