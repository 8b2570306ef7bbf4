-- ===== src/Tests.antt =====
-- The theorems of the development at concrete inputs.
pub mod Batch
mod Builder
mod Policy
mod Txn
mod Stream
pub mod Exceptions
mod Results
mod Metrics
mod Pool
mod Config
mod Topo
mod Session
pub mod Dispatch
mod Apply
mod Execute
mod Info
