-- ===== src/Policy/Mapper.antt =====
-- aerospike_sdk/policy/policy_mapper.py: the policies of the native client from settings.
pub mod Native
pub mod Apply
pub mod Laws
use aerospike_client_python.Base.{
  ℤ, pos, Bool, true, false, ◌&&◌, Option, none, some, is_some, if◌then◌else◌,
}
use aerospike_client_python.Config.Equality.{same_int}
use aerospike_client_python.Policy.Settings.{Enums, Settings}
use aerospike_client_python.Policy.Mapper.Native.{
  Concurrency, sequential, parallel, ReadPolicy, WritePolicy, QueryPolicy, BatchPolicy,
  TxnVerifyPolicy, TxnRollPolicy, Core,
}

-- `if value is not None`: the field takes it, or keeps what the native client made it.
abbrev pub or_keep : {A : Type 0} → Option A → A → A
or_keep none a = a
or_keep (some b) a = b

-- `override`, `command_default`, then the setting.
unfoldable pub resolve_durable_delete : Option Bool → Option Bool → Option Bool → Bool
resolve_durable_delete setting command_default (some override) = override
resolve_durable_delete setting (some default) none = default
resolve_durable_delete setting none none = or_keep setting false

-- The `ValueError` for `read_touch_ttl`, or a policy.
abbrev pub Checked : Type 0 → Type 0
Checked A = Option A

module _ (E : Enums) (C : Core E) where
  abbrev pub or_ms : Option ℤ → ℤ → ℤ
  or_ms none default = default
  or_ms (some duration) default = C.ms duration

  -- Whether an assignment of `read_touch_ttl` is refused.
  abbrev pub touch_ttl_fits : Option ℤ → Bool
  touch_ttl_fits none = true
  touch_ttl_fits (some percent) = C.valid_touch_ttl percent

  abbrev pub read_fields : ReadPolicy E → Settings E → ReadPolicy E
  read_fields d s = record {
    total_timeout = or_ms s.total_timeout d.total_timeout;
    socket_timeout = or_ms s.socket_timeout d.socket_timeout;
    timeout_delay = or_ms s.timeout_delay d.timeout_delay;
    max_retries = or_keep s.max_retries d.max_retries;
    sleep_between_retries = or_ms s.retry_delay d.sleep_between_retries;
    replica = or_keep s.replica d.replica;
    read_mode_ap = or_keep s.read_mode_ap d.read_mode_ap;
    read_mode_sc = or_keep s.read_mode_sc d.read_mode_sc;
    read_touch_ttl = or_keep s.read_touch_ttl_percent d.read_touch_ttl;
    use_compression = or_keep s.use_compression d.use_compression;
    compression_threshold = or_keep s.compression_threshold d.compression_threshold;
    error_detail_verbosity = or_keep s.error_detail_verbosity d.error_detail_verbosity;
  }

  unfoldable pub to_read_policy : Settings E → Checked (ReadPolicy E)
  to_read_policy s =
      if touch_ttl_fits s.read_touch_ttl_percent then some (read_fields C.read_defaults s) else none

  unfoldable pub to_write_policy : Settings E → WritePolicy E
  to_write_policy s =
      let d = C.write_defaults in
      record d {
        total_timeout = or_ms s.total_timeout d.total_timeout;
        socket_timeout = or_ms s.socket_timeout d.socket_timeout;
        timeout_delay = or_ms s.timeout_delay d.timeout_delay;
        max_retries = or_keep s.max_retries d.max_retries;
        sleep_between_retries = or_ms s.retry_delay d.sleep_between_retries;
        send_key = or_keep s.send_key d.send_key;
        durable_delete = or_keep s.durable_delete d.durable_delete;
        commit_level = or_keep s.commit_level d.commit_level;
        use_compression = or_keep s.use_compression d.use_compression;
        compression_threshold = or_keep s.compression_threshold d.compression_threshold;
        error_detail_verbosity = or_keep s.error_detail_verbosity d.error_detail_verbosity;
      }

  unfoldable pub to_read_operate_policy : Settings E → Checked (WritePolicy E)
  unfolding to_write_policy
  to_read_operate_policy s =
      let p = to_write_policy s in
      if touch_ttl_fits s.read_touch_ttl_percent
      then some (record p {
        replica = or_keep s.replica p.replica;
        read_mode_ap = or_keep s.read_mode_ap p.read_mode_ap;
        read_mode_sc = or_keep s.read_mode_sc p.read_mode_sc;
        read_touch_ttl = or_keep s.read_touch_ttl_percent p.read_touch_ttl;
      })
      else none

  unfoldable pub to_query_policy : Settings E → QueryPolicy E
  to_query_policy s =
      let p = C.query_defaults in
      record {
        total_timeout = or_ms s.total_timeout p.total_timeout;
        socket_timeout = or_ms s.socket_timeout p.socket_timeout;
        timeout_delay = or_ms s.timeout_delay p.timeout_delay;
        max_retries = or_keep s.max_retries p.max_retries;
        sleep_between_retries = or_ms s.retry_delay p.sleep_between_retries;
        replica = or_keep s.replica p.replica;
        read_mode_ap = or_keep s.read_mode_ap p.read_mode_ap;
        read_mode_sc = or_keep s.read_mode_sc p.read_mode_sc;
        use_compression = or_keep s.use_compression p.use_compression;
        compression_threshold = or_keep s.compression_threshold p.compression_threshold;
        max_concurrent_nodes = or_keep s.max_concurrent_nodes p.max_concurrent_nodes;
        record_queue_size = or_keep s.record_queue_size p.record_queue_size;
        error_detail_verbosity = or_keep s.error_detail_verbosity p.error_detail_verbosity;
      }

  unfoldable pub to_batch_read_policy : Settings E → Checked ℤ
  to_batch_read_policy s =
      if touch_ttl_fits s.read_touch_ttl_percent
      then some (or_keep s.read_touch_ttl_percent C.batch_read_touch_ttl)
      else none

  unfoldable pub batch_concurrency : Option ℤ → Option Concurrency
  batch_concurrency none = none
  batch_concurrency (some nodes) = some (if same_int nodes (pos 1) then sequential else parallel)

  unfoldable pub to_batch_policy : Settings E → BatchPolicy E
  unfolding batch_concurrency
  to_batch_policy s =
      let d = C.batch_defaults in
      record {
        total_timeout = or_ms s.total_timeout d.total_timeout;
        socket_timeout = or_ms s.socket_timeout d.socket_timeout;
        timeout_delay = or_ms s.timeout_delay d.timeout_delay;
        max_retries = or_keep s.max_retries d.max_retries;
        sleep_between_retries = or_ms s.retry_delay d.sleep_between_retries;
        allow_inline = or_keep s.allow_inline d.allow_inline;
        allow_inline_ssd = or_keep s.allow_inline_ssd d.allow_inline_ssd;
        replica = or_keep s.replica d.replica;
        read_mode_ap = or_keep s.read_mode_ap d.read_mode_ap;
        read_mode_sc = or_keep s.read_mode_sc d.read_mode_sc;
        use_compression = or_keep s.use_compression d.use_compression;
        compression_threshold = or_keep s.compression_threshold d.compression_threshold;
        error_detail_verbosity = or_keep s.error_detail_verbosity d.error_detail_verbosity;
        concurrency = or_keep (batch_concurrency s.max_concurrent_nodes) d.concurrency;
      }

  unfoldable pub to_txn_verify_policy : Settings E → TxnVerifyPolicy E
  to_txn_verify_policy s =
      let p = C.txn_verify_defaults in
      record {
        total_timeout = or_ms s.total_timeout p.total_timeout;
        socket_timeout = or_ms s.socket_timeout p.socket_timeout;
        max_retries = or_keep s.max_retries p.max_retries;
        sleep_between_retries = or_ms s.retry_delay p.sleep_between_retries;
        replica = or_keep s.replica p.replica;
        read_mode_sc = or_keep s.read_mode_sc p.read_mode_sc;
      }

  unfoldable pub to_txn_roll_policy : Settings E → TxnRollPolicy E
  to_txn_roll_policy s =
      let p = C.txn_roll_defaults in
      record {
        total_timeout = or_ms s.total_timeout p.total_timeout;
        socket_timeout = or_ms s.socket_timeout p.socket_timeout;
        max_retries = or_keep s.max_retries p.max_retries;
        sleep_between_retries = or_ms s.retry_delay p.sleep_between_retries;
        replica = or_keep s.replica p.replica;
      }
