-- ===== src/Prometheus.antt =====
-- src/prometheus: the metrics formatter. A module for each family, as in the source.
pub mod Lines
pub mod Reader
pub mod Connections
pub mod Server
pub mod Upstream
pub mod Cache
pub mod Status
pub mod Samples
