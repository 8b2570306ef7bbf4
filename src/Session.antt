-- ===== src/Session.antt =====
-- Sessions: aerospike_sdk/aio/session.py.
pub mod Coalesce
pub mod Transact
