-- ===== src/Policy/Mapper/Laws.antt =====
-- What the policies of aerospike_sdk/policy/policy_mapper.py have in common.
use aerospike_client_python.Base.{Bool-cases, Option, none, some, ◌≡◌, refl, ap, inl, inr}
use aerospike_client_python.Policy.Settings.{Enums, Settings}
use aerospike_client_python.Policy.Mapper.{
  read_fields, touch_ttl_fits, to_read_policy, to_write_policy, to_read_operate_policy,
}
use aerospike_client_python.Policy.Mapper.Native.{ReadPolicy, WritePolicy, Core}

module _ (E : Enums) where
  -- What a write policy says of a read.
  abbrev pub read_view : WritePolicy E → ReadPolicy E
  read_view p = record {
    total_timeout = p.total_timeout;
    socket_timeout = p.socket_timeout;
    timeout_delay = p.timeout_delay;
    max_retries = p.max_retries;
    sleep_between_retries = p.sleep_between_retries;
    replica = p.replica;
    read_mode_ap = p.read_mode_ap;
    read_mode_sc = p.read_mode_sc;
    read_touch_ttl = p.read_touch_ttl;
    use_compression = p.use_compression;
    compression_threshold = p.compression_threshold;
    error_detail_verbosity = p.error_detail_verbosity;
  }

  abbrev pub view : Option (WritePolicy E) → Option (ReadPolicy E)
  view none = none
  view (some p) = some (read_view p)

module _ (E : Enums) (C : Core E) where
  -- Where the client's two policies start from the same values, an operate that only reads runs as
  -- the read of the same settings would: every field of the read policy is that of the write
  -- policy it rides on, and a percentage that one refuses the other refuses too.
  pub to_read_operate_policy-to_read_policy :
      (s : Settings E)
      → read_view E C.write_defaults ≡ C.read_defaults
      → view E (to_read_operate_policy E C s) ≡ to_read_policy E C s
  unfolding to_read_operate_policy to_read_policy to_write_policy
  to_read_operate_policy-to_read_policy s h =
      elim (Bool-cases (touch_ttl_fits E C s.read_touch_ttl_percent)) [
        | inl e ↦ rw e (ap (λ d. some (read_fields E C d s)) h)
        | inr e ↦ rw e refl
      ]
