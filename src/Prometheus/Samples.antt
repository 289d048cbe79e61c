-- ===== src/Prometheus/Samples.antt =====
-- The samples that the texts of src/prometheus are to carry, and that a reader finds them there.
pub mod Connections
pub mod Server
pub mod Upstream
pub mod Cache
pub mod Page
pub mod Lookup
pub mod Shown
pub mod Order
