-- ===== src/Metrics.antt =====
-- The metrics of aerospike_sdk/metrics: the export of snapshots, and the usage counters.
pub mod Departures
pub mod Health
pub mod Timer
pub mod Usage
