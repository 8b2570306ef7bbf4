-- ===== src/Policy.antt =====
-- The behaviors of aerospike_sdk/policy: their settings, their tree with its caches, and the
-- native policies that settings come to.
pub mod Mapper
pub mod Settings
pub mod Registry
pub mod Behavior
