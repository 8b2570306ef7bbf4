-- ===== src/Policy/Settings/Laws.antt =====
-- The algebra of `Settings.merge` of aerospike_sdk/policy/behavior_settings.py.
use aerospike_client_python.Base.{◌≡◌, refl, Option, none, some}
use aerospike_client_python.Policy.Settings.{Enums, Settings, unset, merge, pick}

pick_assoc : {A : Type 0} (x y z : Option A) → pick (pick x y) z ≡ pick x (pick y z)
pick_assoc none y z = refl
pick_assoc (some x) y z = refl

pick-none : {A : Type 0} (x : Option A) → pick x none ≡ x
pick-none none = refl
pick-none (some x) = refl

module _ (E : Enums) where
  pub merge_assoc : (a b c : Settings E) → merge E a (merge E b c) ≡ merge E (merge E a b) c
  unfolding merge
  merge_assoc a b c = λ i. record {
    total_timeout = pick_assoc c.total_timeout b.total_timeout a.total_timeout i;
    socket_timeout = pick_assoc c.socket_timeout b.socket_timeout a.socket_timeout i;
    timeout_delay = pick_assoc c.timeout_delay b.timeout_delay a.timeout_delay i;
    max_retries = pick_assoc c.max_retries b.max_retries a.max_retries i;
    retry_delay = pick_assoc c.retry_delay b.retry_delay a.retry_delay i;
    send_key = pick_assoc c.send_key b.send_key a.send_key i;
    durable_delete = pick_assoc c.durable_delete b.durable_delete a.durable_delete i;
    commit_level = pick_assoc c.commit_level b.commit_level a.commit_level i;
    replica = pick_assoc c.replica b.replica a.replica i;
    read_mode_ap = pick_assoc c.read_mode_ap b.read_mode_ap a.read_mode_ap i;
    read_mode_sc = pick_assoc c.read_mode_sc b.read_mode_sc a.read_mode_sc i;
    use_compression = pick_assoc c.use_compression b.use_compression a.use_compression i;
    compression_threshold =
        pick_assoc c.compression_threshold b.compression_threshold a.compression_threshold i;
    max_concurrent_nodes =
        pick_assoc c.max_concurrent_nodes b.max_concurrent_nodes a.max_concurrent_nodes i;
    record_queue_size = pick_assoc c.record_queue_size b.record_queue_size a.record_queue_size i;
    allow_scans_with_where =
        pick_assoc c.allow_scans_with_where b.allow_scans_with_where a.allow_scans_with_where i;
    allow_inline = pick_assoc c.allow_inline b.allow_inline a.allow_inline i;
    allow_inline_ssd = pick_assoc c.allow_inline_ssd b.allow_inline_ssd a.allow_inline_ssd i;
    read_touch_ttl_percent =
        pick_assoc c.read_touch_ttl_percent b.read_touch_ttl_percent a.read_touch_ttl_percent i;
    error_detail_verbosity =
        pick_assoc c.error_detail_verbosity b.error_detail_verbosity a.error_detail_verbosity i;
  }

  pub merge-unset_left : (a : Settings E) → merge E (unset E) a ≡ a
  unfolding merge
  merge-unset_left a = λ i. record {
    total_timeout = pick-none a.total_timeout i;
    socket_timeout = pick-none a.socket_timeout i;
    timeout_delay = pick-none a.timeout_delay i;
    max_retries = pick-none a.max_retries i;
    retry_delay = pick-none a.retry_delay i;
    send_key = pick-none a.send_key i;
    durable_delete = pick-none a.durable_delete i;
    commit_level = pick-none a.commit_level i;
    replica = pick-none a.replica i;
    read_mode_ap = pick-none a.read_mode_ap i;
    read_mode_sc = pick-none a.read_mode_sc i;
    use_compression = pick-none a.use_compression i;
    compression_threshold = pick-none a.compression_threshold i;
    max_concurrent_nodes = pick-none a.max_concurrent_nodes i;
    record_queue_size = pick-none a.record_queue_size i;
    allow_scans_with_where = pick-none a.allow_scans_with_where i;
    allow_inline = pick-none a.allow_inline i;
    allow_inline_ssd = pick-none a.allow_inline_ssd i;
    read_touch_ttl_percent = pick-none a.read_touch_ttl_percent i;
    error_detail_verbosity = pick-none a.error_detail_verbosity i;
  }

  pub merge-unset_right : (a : Settings E) → merge E a (unset E) ≡ a
  unfolding merge
  merge-unset_right a = refl
