-- ===== src/Txn.antt =====
-- Multi-record transactions: aerospike_sdk/txn_shared.py, implicit_txn.py, txn_status.py,
-- transactional_session_shared.py and aio/transactional_session.py.
pub mod Errors
pub mod Plan
pub mod Implicit
pub mod Session
