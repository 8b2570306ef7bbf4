-- ===== src/Policy/Settings/Fields.antt =====
-- The fields of `Settings` of aerospike_sdk/policy/behavior_settings.py, by name.
use aerospike_client_python.Base.{ℤ, Bool, Option, none, ◌≡◌, refl}
use aerospike_client_python.Policy.Settings.{Enums, Settings, unset, merge, pick}

pub data Field : Type 0 where
  total_timeout_field socket_timeout_field timeout_delay_field max_retries_field : Field
  retry_delay_field send_key_field durable_delete_field commit_level_field : Field
  replica_field read_mode_ap_field read_mode_sc_field use_compression_field : Field
  compression_threshold_field max_concurrent_nodes_field record_queue_size_field
        allow_scans_with_where_field :
      Field
  allow_inline_field allow_inline_ssd_field read_touch_ttl_percent_field
        error_detail_verbosity_field :
      Field

module _ (E : Enums) where
  abbrev pub Value : Field → Type 0
  Value total_timeout_field = ℤ
  Value socket_timeout_field = ℤ
  Value timeout_delay_field = ℤ
  Value max_retries_field = ℤ
  Value retry_delay_field = ℤ
  Value send_key_field = Bool
  Value durable_delete_field = Bool
  Value commit_level_field = E.CommitLevel
  Value replica_field = E.Replica
  Value read_mode_ap_field = E.ReadModeAp
  Value read_mode_sc_field = E.ReadModeSc
  Value use_compression_field = Bool
  Value compression_threshold_field = ℤ
  Value max_concurrent_nodes_field = ℤ
  Value record_queue_size_field = ℤ
  Value allow_scans_with_where_field = Bool
  Value allow_inline_field = Bool
  Value allow_inline_ssd_field = Bool
  Value read_touch_ttl_percent_field = ℤ
  Value error_detail_verbosity_field = ℤ

  abbrev pub read : (f : Field) → Settings E → Option (Value f)
  read total_timeout_field s = s.total_timeout
  read socket_timeout_field s = s.socket_timeout
  read timeout_delay_field s = s.timeout_delay
  read max_retries_field s = s.max_retries
  read retry_delay_field s = s.retry_delay
  read send_key_field s = s.send_key
  read durable_delete_field s = s.durable_delete
  read commit_level_field s = s.commit_level
  read replica_field s = s.replica
  read read_mode_ap_field s = s.read_mode_ap
  read read_mode_sc_field s = s.read_mode_sc
  read use_compression_field s = s.use_compression
  read compression_threshold_field s = s.compression_threshold
  read max_concurrent_nodes_field s = s.max_concurrent_nodes
  read record_queue_size_field s = s.record_queue_size
  read allow_scans_with_where_field s = s.allow_scans_with_where
  read allow_inline_field s = s.allow_inline
  read allow_inline_ssd_field s = s.allow_inline_ssd
  read read_touch_ttl_percent_field s = s.read_touch_ttl_percent
  read error_detail_verbosity_field s = s.error_detail_verbosity

  -- A merge takes each field from the settings that override, where they set it.
  pub read-merge :
      (f : Field) (a b : Settings E) → read f (merge E a b) ≡ pick (read f b) (read f a)
  unfolding merge
  read-merge total_timeout_field a b = refl
  read-merge socket_timeout_field a b = refl
  read-merge timeout_delay_field a b = refl
  read-merge max_retries_field a b = refl
  read-merge retry_delay_field a b = refl
  read-merge send_key_field a b = refl
  read-merge durable_delete_field a b = refl
  read-merge commit_level_field a b = refl
  read-merge replica_field a b = refl
  read-merge read_mode_ap_field a b = refl
  read-merge read_mode_sc_field a b = refl
  read-merge use_compression_field a b = refl
  read-merge compression_threshold_field a b = refl
  read-merge max_concurrent_nodes_field a b = refl
  read-merge record_queue_size_field a b = refl
  read-merge allow_scans_with_where_field a b = refl
  read-merge allow_inline_field a b = refl
  read-merge allow_inline_ssd_field a b = refl
  read-merge read_touch_ttl_percent_field a b = refl
  read-merge error_detail_verbosity_field a b = refl

  pub read-unset : (f : Field) → read f (unset E) ≡ none
  read-unset total_timeout_field = refl
  read-unset socket_timeout_field = refl
  read-unset timeout_delay_field = refl
  read-unset max_retries_field = refl
  read-unset retry_delay_field = refl
  read-unset send_key_field = refl
  read-unset durable_delete_field = refl
  read-unset commit_level_field = refl
  read-unset replica_field = refl
  read-unset read_mode_ap_field = refl
  read-unset read_mode_sc_field = refl
  read-unset use_compression_field = refl
  read-unset compression_threshold_field = refl
  read-unset max_concurrent_nodes_field = refl
  read-unset record_queue_size_field = refl
  read-unset allow_scans_with_where_field = refl
  read-unset allow_inline_field = refl
  read-unset allow_inline_ssd_field = refl
  read-unset read_touch_ttl_percent_field = refl
  read-unset error_detail_verbosity_field = refl
