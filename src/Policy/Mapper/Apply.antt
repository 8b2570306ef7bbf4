-- ===== src/Policy/Mapper/Apply.antt =====
-- `apply_to_read_policy` and `apply_to_write_policy` of aerospike_sdk/policy/policy_mapper.py: settings
-- under a policy that the caller made.
use aerospike_client_python.Base.{
  ℤ, pos, Bool, true, false, ◌&&◌, Option, none, some, Bool-cases, inl, inr, ◌≡◌, refl, ◌≢◌,
  if◌then◌else◌,
}
use aerospike_client_python.Config.Equality.{same_int, same_int-IsSound}
use aerospike_client_python.Policy.Settings.{Enums, Settings}
use aerospike_client_python.Policy.Mapper.{or_keep, or_ms, touch_ttl_fits, Checked}
use aerospike_client_python.Policy.Mapper.Native.{ReadPolicy, WritePolicy, Core}

-- Zero stands for a number that the caller has not set.
abbrev pub is_zero : ℤ → Bool
is_zero n = same_int n (pos 0)

abbrev pub fill : Option ℤ → ℤ → ℤ
fill setting n = if is_zero n then or_keep setting n else n

module _ (E : Enums) (C : Core E) where
  abbrev pub fill_ms : Option ℤ → ℤ → ℤ
  fill_ms setting n = if is_zero n then or_ms E C setting n else n

  unfoldable pub apply_to_read_policy : Settings E → ReadPolicy E → Checked (ReadPolicy E)
  apply_to_read_policy s p =
      if is_zero p.read_touch_ttl && not_fitting s.read_touch_ttl_percent
      then none
      else some (record p {
        total_timeout = fill_ms s.total_timeout p.total_timeout;
        socket_timeout = fill_ms s.socket_timeout p.socket_timeout;
        timeout_delay = fill_ms s.timeout_delay p.timeout_delay;
        max_retries = fill s.max_retries p.max_retries;
        replica = or_keep s.replica p.replica;
        read_mode_ap = or_keep s.read_mode_ap p.read_mode_ap;
        read_mode_sc = or_keep s.read_mode_sc p.read_mode_sc;
        read_touch_ttl = fill s.read_touch_ttl_percent p.read_touch_ttl;
        use_compression = or_keep s.use_compression p.use_compression;
        compression_threshold = or_keep s.compression_threshold p.compression_threshold;
        error_detail_verbosity = fill s.error_detail_verbosity p.error_detail_verbosity;
      })
    where
      not_fitting : Option ℤ → Bool
      not_fitting percent = if touch_ttl_fits E C percent then false else true

  unfoldable pub apply_to_write_policy : Settings E → WritePolicy E → WritePolicy E
  apply_to_write_policy s p = record p {
    total_timeout = fill_ms s.total_timeout p.total_timeout;
    socket_timeout = fill_ms s.socket_timeout p.socket_timeout;
    timeout_delay = fill_ms s.timeout_delay p.timeout_delay;
    max_retries = fill s.max_retries p.max_retries;
    send_key = or_keep s.send_key p.send_key;
    durable_delete = or_keep s.durable_delete p.durable_delete;
    commit_level = or_keep s.commit_level p.commit_level;
    use_compression = or_keep s.use_compression p.use_compression;
    compression_threshold = or_keep s.compression_threshold p.compression_threshold;
    error_detail_verbosity = fill s.error_detail_verbosity p.error_detail_verbosity;
  }

  fill_ms_kept : (setting : Option ℤ) (n : ℤ) → n ≢ pos 0 → fill_ms setting n ≡ n
  fill_ms_kept setting n h = elim (Bool-cases (is_zero n)) [
    | inl e ↦ absurd (h (same_int-IsSound n (pos 0) e))
    | inr e ↦ rw e refl
  ]

  -- A time that the caller set is kept, and a flag that the caller set is not: the setting replaces
  -- it.
  apply_to_write_policy-precedence :
      (s : Settings E) (p : WritePolicy E) (b : Bool)
      → (p.total_timeout ≢ pos 0 → (apply_to_write_policy s p).total_timeout ≡ p.total_timeout)
        × (s.durable_delete ≡ some b → (apply_to_write_policy s p).durable_delete ≡ b)
  unfolding apply_to_write_policy
  apply_to_write_policy-precedence s p b =
      (λ h. fill_ms_kept s.total_timeout p.total_timeout h, λ h. rw h refl)
