-- ===== src/Storage.antt =====
-- internal/storage: the ring buffer of snapshots, the log writer and the log table.
pub mod Ring
pub mod Writer
pub mod Stored
pub mod Sqlite
pub mod Backup
