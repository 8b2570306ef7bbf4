-- ===== src/Batch.antt =====
-- The chained builder of aerospike_sdk/query_shared.py: segments, key selection, and the split of a
-- chain into batches.
pub mod Native
pub mod Spec
pub mod Runs
pub mod Builder
