-- ===== src/Shm.antt =====
-- src/shm.rs: the shared-memory backing store.
pub mod Server
pub mod Upstream
pub mod Cache
pub mod Keys
pub mod Table
pub mod Record
pub mod Init
pub mod Trace
pub mod Snapshot
pub mod Locking
