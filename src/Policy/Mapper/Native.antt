-- ===== src/Policy/Mapper/Native.antt =====
-- The policies of the native client that aerospike_sdk/policy/policy_mapper.py fills, with the fields
-- that it sets.
use aerospike_client_python.Base.{ℤ, Bool}
use aerospike_client_python.Policy.Settings.{Enums}

pub data Concurrency : Type 0 where
  sequential parallel : Concurrency

module _ (E : Enums) where
  pub record ReadPolicy : Type 0 where
    pub total_timeout : ℤ
    pub socket_timeout : ℤ
    pub timeout_delay : ℤ
    pub max_retries : ℤ
    pub sleep_between_retries : ℤ
    pub replica : E.Replica
    pub read_mode_ap : E.ReadModeAp
    pub read_mode_sc : E.ReadModeSc
    pub read_touch_ttl : ℤ
    pub use_compression : Bool
    pub compression_threshold : ℤ
    pub error_detail_verbosity : ℤ

  -- The last four fields are those that a read operation sets.
  pub record WritePolicy : Type 0 where
    pub total_timeout : ℤ
    pub socket_timeout : ℤ
    pub timeout_delay : ℤ
    pub max_retries : ℤ
    pub sleep_between_retries : ℤ
    pub send_key : Bool
    pub durable_delete : Bool
    pub commit_level : E.CommitLevel
    pub use_compression : Bool
    pub compression_threshold : ℤ
    pub error_detail_verbosity : ℤ
    pub replica : E.Replica
    pub read_mode_ap : E.ReadModeAp
    pub read_mode_sc : E.ReadModeSc
    pub read_touch_ttl : ℤ

  pub record QueryPolicy : Type 0 where
    pub total_timeout : ℤ
    pub socket_timeout : ℤ
    pub timeout_delay : ℤ
    pub max_retries : ℤ
    pub sleep_between_retries : ℤ
    pub replica : E.Replica
    pub read_mode_ap : E.ReadModeAp
    pub read_mode_sc : E.ReadModeSc
    pub use_compression : Bool
    pub compression_threshold : ℤ
    pub max_concurrent_nodes : ℤ
    pub record_queue_size : ℤ
    pub error_detail_verbosity : ℤ

  pub record BatchPolicy : Type 0 where
    pub total_timeout : ℤ
    pub socket_timeout : ℤ
    pub timeout_delay : ℤ
    pub max_retries : ℤ
    pub sleep_between_retries : ℤ
    pub allow_inline : Bool
    pub allow_inline_ssd : Bool
    pub replica : E.Replica
    pub read_mode_ap : E.ReadModeAp
    pub read_mode_sc : E.ReadModeSc
    pub use_compression : Bool
    pub compression_threshold : ℤ
    pub error_detail_verbosity : ℤ
    pub concurrency : Concurrency

  pub record TxnVerifyPolicy : Type 0 where
    pub total_timeout : ℤ
    pub socket_timeout : ℤ
    pub max_retries : ℤ
    pub sleep_between_retries : ℤ
    pub replica : E.Replica
    pub read_mode_sc : E.ReadModeSc

  pub record TxnRollPolicy : Type 0 where
    pub total_timeout : ℤ
    pub socket_timeout : ℤ
    pub max_retries : ℤ
    pub sleep_between_retries : ℤ
    pub replica : E.Replica

  -- What the mapping uses of the native client: the policies that its constructors make, the test
  -- of `read_touch_ttl` on assignment, and two members of `Concurrency`; `ms` is Python's
  -- `int(td.total_seconds() * 1000)` of a number of microseconds.
  pub record Core : Type 0 where
    pub ms : ℤ → ℤ
    pub valid_touch_ttl : ℤ → Bool
    pub read_defaults : ReadPolicy
    pub write_defaults : WritePolicy
    pub query_defaults : QueryPolicy
    pub batch_defaults : BatchPolicy
    -- the one field that `to_batch_read_policy` sets
    pub batch_read_touch_ttl : ℤ
    pub txn_verify_defaults : TxnVerifyPolicy
    pub txn_roll_defaults : TxnRollPolicy
