-- ===== src/Lib.antt =====
-- ngx_vts, a virtual-host traffic status module for nginx, in Rust (src/*.rs, src/prometheus/*.rs).
--
-- Each nginx worker calls the entry points of src/lib.rs at the end of a request. They record it in
-- tables in shared memory (src/shm.rs) where a `vts_zone` is configured, and in managers of the
-- process (src/vts_node.rs, src/cache_stats.rs) where none is. The status page (src/prometheus)
-- takes a snapshot of one of the two and prints it as Prometheus metrics.
--
-- Files:
--   Prelude       the names that all modules share, lists, `u64` arithmetic, bytes and UTF-8
--   HashMap       `std::collections::HashMap` as an association list; HashMap/Keys has its invariants
--   Float         the interface to `f64`
--   Stats         src/stats.rs
--   UpstreamStats src/upstream_stats.rs; UpstreamStats/Histogram counts samples into buckets, and
--                 UpstreamStats/Classes has the status classes as hundreds
--   CacheStats    src/cache_stats.rs, with the interface `Unicode` to `str::to_uppercase`
--   Shm           src/shm.rs. Server, Upstream and Cache are the counters of one entry, each with a
--                 History that says what they hold; Server/Shown is what the page shows of one; Keys
--                 the composite keys; Table the interface to
--                 the ordered maps of the slab pool; Record the recording functions; Init
--                 `vts_init_shm_zone`; Snapshot the snapshots; Trace any sequence of calls, and
--                 Trace/Start from before the zone exists; Locking the single accesses of any number
--                 of processes to a map under its lock, in any order: Lock is the interface to the
--                 `RwLock` of the `ngx` crate, Processes has the accesses of recordings
--                 and of snapshots, Invariant and Moves what
--                 they keep, Jobs the recordings of a trace of calls, Ranks what is left of a call,
--                 and Serial, Progress and Termination the theorems
--   Manager       src/vts_node.rs; Counters compares its counting with the shared counters, Totals
--                 has the sums over a group, Invariant the names and keys
--   Clock         src/lib.rs, `calculate_time_diff_ms`
--   ConnectionStats  src/connection_stats.rs; Laws says what the counters read are
--   Module        src/lib.rs: the globals of a worker and its entry points; Laws and Stores compare
--                 the two stores, Stores/Upstream and Stores/Cache for upstream requests and cache
--                 accesses, Statuses the two ways to count a cache status; Connections is
--                 `vts_collect_nginx_connections`, and Setup the initialization; Invariant has the
--                 steps of a worker, other processes' writes to the shared memory among them
--   Prometheus    src/prometheus: Lines has the shapes of the lines, Server, Connections,
--                 Upstream, Cache and Status one source file each. Reader reads the text format on its
--                 own, and Samples says which samples each text is to carry, and on what conditions;
--                 Samples/Shown goes from the calls to a number on the page, and Samples/Order is
--                 about the orders in which the maps may be visited
--   Instances     concrete stand-ins for the interfaces, for examples; Guards is a lock
--   Tests         examples of the theorems; Tests/Source has the unit tests of the source files, each
--                 as the Boolean that it asserts, and evaluates them
--
-- How the code is read:
--   Functions that change an object return the new object. Functions keep the names of the source.
--   `u64` arithmetic wraps at 2 ^ 64, as in the release build; the other integers only carry values.
--   A Rust `str` is its bytes. `is_utf8` is the standard library's test, as a state machine.
--   A C string is its bytes up to the NUL, and a null pointer is `none`.
--   Numbers are printed with at most twenty digits, which is enough for every `u64`.
--   The iteration order of a `HashMap` is the order of insertion, one of those that the real map may
--   choose. Locks are taken for a whole operation, and a poisoned lock is recovered, so each operation
--   is one step; for the maps in shared memory, Shm/Locking has the single accesses instead.
--   A shared table may run out of slab memory at each of its two allocations for a new key: each
--   recording is told by a `Room` whether it does.
--   A history or a trace lists the newest element first.
--
-- Not modelled: the C sources (src/ngx_vts_wrapper.c, src/ngx_http_vts_module.c), nginx, the `ngx`
-- crate, the arithmetic and printing of `f64`, and Unicode case mapping beyond ASCII, which are
-- interfaces where the code uses them.
pub mod Prelude
pub mod HashMap
pub mod Float
pub mod Stats
pub mod UpstreamStats
pub mod CacheStats
pub mod Shm
pub mod Manager
pub mod Clock
pub mod ConnectionStats
pub mod Module
pub mod Prometheus
pub mod Instances
mod Tests
