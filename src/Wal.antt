-- ===== src/Wal.antt =====
-- internal/storage/wal: the write-ahead log, one file for each pending entry.
pub mod Seq
pub mod Wire
pub mod Integrity
pub mod Log
