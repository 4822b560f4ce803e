-- ===== src/FileLock.antt =====
-- internal/storage/filelock: stripe mutexes and the order in which goroutines take them.
pub mod Order
pub mod Steps
pub mod Safety
pub mod Exclusion
pub mod Progress
pub mod Leases
