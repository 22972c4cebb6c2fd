-- ===== src/Kv.antt =====
-- crates/vyrm-kv: the native storage substrate.
pub mod Error
pub mod Batch
pub mod Memtable
pub mod Wal
pub mod Tests
