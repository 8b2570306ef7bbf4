-- ===== src/Policy/Settings.antt =====
-- aerospike_sdk/policy/behavior_settings.py: settings, scopes and the order in which scopes apply.
pub mod Laws
pub mod Fields
use aerospike_client_python.Base.{ℕ, ℤ, Bool, Option, none, some, List, [], ◌∷◌, ◌==◌}

-- The enumerations of aerospike_native that settings carry.
pub record Enums : Type 1 where
  pub CommitLevel : Type 0
  pub Replica : Type 0
  pub ReadModeAp : Type 0
  pub ReadModeSc : Type 0

pub data OpKind : Type 0 where
  read write_retryable write_non_retryable : OpKind

pub data OpShape : Type 0 where
  point batch query : OpShape

pub data Mode : Type 0 where
  ap sc : Mode

pub data Scope : Type 0 where
  all reads reads_point reads_batch reads_query reads_ap reads_sc : Scope
  writes writes_retryable writes_non_retryable : Scope
  writes_point writes_batch writes_query writes_ap writes_sc : Scope
  system_txn_verify system_txn_roll : Scope

-- The members of `Scope` in the order of their declaration, and their equality.
abbrev tag : Scope → ℕ
tag all = 0
tag reads = 1
tag reads_point = 2
tag reads_batch = 3
tag reads_query = 4
tag reads_ap = 5
tag reads_sc = 6
tag writes = 7
tag writes_retryable = 8
tag writes_non_retryable = 9
tag writes_point = 10
tag writes_batch = 11
tag writes_query = 12
tag writes_ap = 13
tag writes_sc = 14
tag system_txn_verify = 15
tag system_txn_roll = 16

abbrev pub scope_eq : Scope → Scope → Bool
scope_eq a b = tag a == tag b

abbrev pub pick : {A : Type 0} → Option A → Option A → Option A
pick none base = base
pick (some a) base = some a

module _ (E : Enums) where
  -- A duration is a whole number of microseconds, as in a `timedelta`.
  pub record Settings : Type 0 where
    pub total_timeout : Option ℤ
    pub socket_timeout : Option ℤ
    pub timeout_delay : Option ℤ
    pub max_retries : Option ℤ
    pub retry_delay : Option ℤ
    pub send_key : Option Bool
    pub durable_delete : Option Bool
    pub commit_level : Option E.CommitLevel
    pub replica : Option E.Replica
    pub read_mode_ap : Option E.ReadModeAp
    pub read_mode_sc : Option E.ReadModeSc
    pub use_compression : Option Bool
    pub compression_threshold : Option ℤ
    pub max_concurrent_nodes : Option ℤ
    pub record_queue_size : Option ℤ
    pub allow_scans_with_where : Option Bool
    pub allow_inline : Option Bool
    pub allow_inline_ssd : Option Bool
    pub read_touch_ttl_percent : Option ℤ
    pub error_detail_verbosity : Option ℤ

  -- `Settings()`
  abbrev pub unset : Settings
  unset = record {
    total_timeout = none;
    socket_timeout = none;
    timeout_delay = none;
    max_retries = none;
    retry_delay = none;
    send_key = none;
    durable_delete = none;
    commit_level = none;
    replica = none;
    read_mode_ap = none;
    read_mode_sc = none;
    use_compression = none;
    compression_threshold = none;
    max_concurrent_nodes = none;
    record_queue_size = none;
    allow_scans_with_where = none;
    allow_inline = none;
    allow_inline_ssd = none;
    read_touch_ttl_percent = none;
    error_detail_verbosity = none;
  }

  unfoldable pub merge : Settings → Settings → Settings
  merge base override = record {
    total_timeout = pick override.total_timeout base.total_timeout;
    socket_timeout = pick override.socket_timeout base.socket_timeout;
    timeout_delay = pick override.timeout_delay base.timeout_delay;
    max_retries = pick override.max_retries base.max_retries;
    retry_delay = pick override.retry_delay base.retry_delay;
    send_key = pick override.send_key base.send_key;
    durable_delete = pick override.durable_delete base.durable_delete;
    commit_level = pick override.commit_level base.commit_level;
    replica = pick override.replica base.replica;
    read_mode_ap = pick override.read_mode_ap base.read_mode_ap;
    read_mode_sc = pick override.read_mode_sc base.read_mode_sc;
    use_compression = pick override.use_compression base.use_compression;
    compression_threshold = pick override.compression_threshold base.compression_threshold;
    max_concurrent_nodes = pick override.max_concurrent_nodes base.max_concurrent_nodes;
    record_queue_size = pick override.record_queue_size base.record_queue_size;
    allow_scans_with_where = pick override.allow_scans_with_where base.allow_scans_with_where;
    allow_inline = pick override.allow_inline base.allow_inline;
    allow_inline_ssd = pick override.allow_inline_ssd base.allow_inline_ssd;
    read_touch_ttl_percent = pick override.read_touch_ttl_percent base.read_touch_ttl_percent;
    error_detail_verbosity = pick override.error_detail_verbosity base.error_detail_verbosity;
  }

abbrev read_shape_scope : OpShape → Scope
read_shape_scope point = reads_point
read_shape_scope batch = reads_batch
read_shape_scope query = reads_query

abbrev write_shape_scope : OpShape → Scope
write_shape_scope point = writes_point
write_shape_scope batch = writes_batch
write_shape_scope query = writes_query

abbrev read_mode_scope : Mode → Scope
read_mode_scope ap = reads_ap
read_mode_scope sc = reads_sc

abbrev write_mode_scope : Mode → Scope
write_mode_scope ap = writes_ap
write_mode_scope sc = writes_sc

unfoldable pub resolution_order : OpKind → OpShape → Mode → List Scope
resolution_order read shape mode = all ∷ reads ∷ read_mode_scope mode ∷ read_shape_scope shape ∷ []
resolution_order write_retryable shape mode =
    all ∷ writes ∷ write_mode_scope mode ∷ writes_retryable ∷ write_shape_scope shape ∷ []
resolution_order write_non_retryable shape mode =
    all ∷ writes ∷ write_mode_scope mode ∷ writes_non_retryable ∷ write_shape_scope shape ∷ []
