-- ===== src/Shm/Locking.antt =====
-- src/shm.rs: processes that share one map of the zone behind its `RwLock`, an access at a time. A
-- recording takes the write lock, looks the key up, and updates the entry or allocates and inserts a
-- new one; a snapshot takes the read lock and visits the entries one by one.
pub mod Lock
pub mod Processes
pub mod Invariant
pub mod Moves
pub mod Jobs
pub mod Serial
pub mod Progress
pub mod Ranks
pub mod Termination
