-- ===== src/Config/Fields.antt =====
-- The fields of the settings in aerospike_sdk/policy/system_settings.py, each with the layers that
-- give its value.
use aerospike_client_python.Base.{
  ℤ, pos, String, str_eq, Bool, true, Option, none, some, ◌≡◌, refl, sym, ap, ◌∙◌,
}
use aerospike_client_python.Base.Dict.{get}
use aerospike_client_python.Config.{
  SystemSettings, no_settings, over, merge_both, merge_settings, Profiles, named_profile,
  resolve_for_cluster, or_no_settings, fill_hard_defaults, effective,
}

pub data Field : Type 0 where
  min_connections_per_node_field : Field
  max_connections_per_node_field : Field
  conn_pools_per_node_field : Field
  wait_for_connection_to_complete_field : Field
  tend_timeout_field : Field
  login_timeout_field : Field
  max_socket_idle_time_field : Field
  tend_interval_field : Field
  num_tend_intervals_in_error_window_field : Field
  max_errors_in_error_window_field : Field
  implicit_batch_write_transactions_field : Field
  sleep_between_attempts_field : Field
  number_of_attempts_field : Field
  enabled_field : Field
  latency_unit_field : Field
  latency_columns_field : Field
  latency_shift_field : Field
  export_interval_field : Field
  exporter_field : Field
  report_dir_field : Field
  report_size_limit_field : Field
  sampler_range_field : Field
  sampler_threshold_field : Field
  labels_field : Field
  operational_enabled_field : Field
  usage_enabled_field : Field

over-none : {A : Type 0} (a : Option A) → over a none ≡ a
over-none none = refl
over-none (some x) = refl

pub over_assoc : {A : Type 0} (a b c : Option A) → over (over a b) c ≡ over a (over b c)
over_assoc none b c = refl
over_assoc (some x) b c = refl

module _ (Exporter Labels : Type 0) where
  abbrev pub FieldType : Field → Type 0
  FieldType implicit_batch_write_transactions_field = Bool
  FieldType enabled_field = Bool
  FieldType latency_unit_field = String
  FieldType exporter_field = Exporter
  FieldType report_dir_field = String
  FieldType labels_field = Labels
  FieldType operational_enabled_field = Bool
  FieldType usage_enabled_field = Bool
  FieldType _ = ℤ

  abbrev pub read : (f : Field) → SystemSettings Exporter Labels → Option (FieldType f)
  read min_connections_per_node_field s = s.min_connections_per_node
  read max_connections_per_node_field s = s.max_connections_per_node
  read conn_pools_per_node_field s = s.conn_pools_per_node
  read wait_for_connection_to_complete_field s = s.wait_for_connection_to_complete
  read tend_timeout_field s = s.tend_timeout
  read login_timeout_field s = s.login_timeout
  read max_socket_idle_time_field s = s.max_socket_idle_time
  read tend_interval_field s = s.tend_interval
  read num_tend_intervals_in_error_window_field s = s.num_tend_intervals_in_error_window
  read max_errors_in_error_window_field s = s.max_errors_in_error_window
  read implicit_batch_write_transactions_field s = s.transactions.implicit_batch_write_transactions
  read sleep_between_attempts_field s = s.transactions.sleep_between_attempts
  read number_of_attempts_field s = s.transactions.number_of_attempts
  read enabled_field s = s.metrics.enabled
  read latency_unit_field s = s.metrics.latency_unit
  read latency_columns_field s = s.metrics.latency_columns
  read latency_shift_field s = s.metrics.latency_shift
  read export_interval_field s = s.metrics.export_interval
  read exporter_field s = s.metrics.exporter
  read report_dir_field s = s.metrics.report_dir
  read report_size_limit_field s = s.metrics.report_size_limit
  read sampler_range_field s = s.metrics.sampler_range
  read sampler_threshold_field s = s.metrics.sampler_threshold
  read labels_field s = s.metrics.labels
  read operational_enabled_field s = s.metrics.operational_enabled
  read usage_enabled_field s = s.metrics.usage_enabled

  -- A field of a layer that may be absent.
  abbrev pub read_layer :
      (f : Field) → Option (SystemSettings Exporter Labels) → Option (FieldType f)
  read_layer f none = none
  read_layer f (some s) = read f s

  -- The value of a field that no layer sets.
  abbrev pub default_of : (f : Field) → Option (FieldType f)
  default_of implicit_batch_write_transactions_field = some true
  default_of sleep_between_attempts_field = some (pos 20000)
  default_of number_of_attempts_field = some (pos 10)
  default_of min_connections_per_node_field = none
  default_of max_connections_per_node_field = none
  default_of conn_pools_per_node_field = none
  default_of wait_for_connection_to_complete_field = none
  default_of tend_timeout_field = none
  default_of login_timeout_field = none
  default_of max_socket_idle_time_field = none
  default_of tend_interval_field = none
  default_of num_tend_intervals_in_error_window_field = none
  default_of max_errors_in_error_window_field = none
  default_of enabled_field = none
  default_of latency_unit_field = none
  default_of latency_columns_field = none
  default_of latency_shift_field = none
  default_of export_interval_field = none
  default_of exporter_field = none
  default_of report_dir_field = none
  default_of report_size_limit_field = none
  default_of sampler_range_field = none
  default_of sampler_threshold_field = none
  default_of labels_field = none
  default_of operational_enabled_field = none
  default_of usage_enabled_field = none

  read-merge_both :
      (f : Field) (hi lo : SystemSettings Exporter Labels)
      → read f (merge_both Exporter Labels hi lo) ≡ over (read f hi) (read f lo)
  read-merge_both min_connections_per_node_field hi lo = refl
  read-merge_both max_connections_per_node_field hi lo = refl
  read-merge_both conn_pools_per_node_field hi lo = refl
  read-merge_both wait_for_connection_to_complete_field hi lo = refl
  read-merge_both tend_timeout_field hi lo = refl
  read-merge_both login_timeout_field hi lo = refl
  read-merge_both max_socket_idle_time_field hi lo = refl
  read-merge_both tend_interval_field hi lo = refl
  read-merge_both num_tend_intervals_in_error_window_field hi lo = refl
  read-merge_both max_errors_in_error_window_field hi lo = refl
  read-merge_both implicit_batch_write_transactions_field hi lo = refl
  read-merge_both sleep_between_attempts_field hi lo = refl
  read-merge_both number_of_attempts_field hi lo = refl
  read-merge_both enabled_field hi lo = refl
  read-merge_both latency_unit_field hi lo = refl
  read-merge_both latency_columns_field hi lo = refl
  read-merge_both latency_shift_field hi lo = refl
  read-merge_both export_interval_field hi lo = refl
  read-merge_both exporter_field hi lo = refl
  read-merge_both report_dir_field hi lo = refl
  read-merge_both report_size_limit_field hi lo = refl
  read-merge_both sampler_range_field hi lo = refl
  read-merge_both sampler_threshold_field hi lo = refl
  read-merge_both labels_field hi lo = refl
  read-merge_both operational_enabled_field hi lo = refl
  read-merge_both usage_enabled_field hi lo = refl

  read-no_settings : (f : Field) → read f (no_settings Exporter Labels) ≡ none
  read-no_settings min_connections_per_node_field = refl
  read-no_settings max_connections_per_node_field = refl
  read-no_settings conn_pools_per_node_field = refl
  read-no_settings wait_for_connection_to_complete_field = refl
  read-no_settings tend_timeout_field = refl
  read-no_settings login_timeout_field = refl
  read-no_settings max_socket_idle_time_field = refl
  read-no_settings tend_interval_field = refl
  read-no_settings num_tend_intervals_in_error_window_field = refl
  read-no_settings max_errors_in_error_window_field = refl
  read-no_settings implicit_batch_write_transactions_field = refl
  read-no_settings sleep_between_attempts_field = refl
  read-no_settings number_of_attempts_field = refl
  read-no_settings enabled_field = refl
  read-no_settings latency_unit_field = refl
  read-no_settings latency_columns_field = refl
  read-no_settings latency_shift_field = refl
  read-no_settings export_interval_field = refl
  read-no_settings exporter_field = refl
  read-no_settings report_dir_field = refl
  read-no_settings report_size_limit_field = refl
  read-no_settings sampler_range_field = refl
  read-no_settings sampler_threshold_field = refl
  read-no_settings labels_field = refl
  read-no_settings operational_enabled_field = refl
  read-no_settings usage_enabled_field = refl

  read-or_no_settings :
      (f : Field) (s : Option (SystemSettings Exporter Labels))
      → read f (or_no_settings Exporter Labels s) ≡ read_layer f s
  read-or_no_settings f none = read-no_settings f
  read-or_no_settings f (some s) = refl

  read-filled :
      (f : Field) (s : Option (SystemSettings Exporter Labels))
      → read f (fill_hard_defaults Exporter Labels s)
        ≡ over (read f (or_no_settings Exporter Labels s)) (default_of f)
  unfolding fill_hard_defaults
  read-filled min_connections_per_node_field s =
      sym (over-none (read min_connections_per_node_field (or_no_settings Exporter Labels s)))
  read-filled max_connections_per_node_field s =
      sym (over-none (read max_connections_per_node_field (or_no_settings Exporter Labels s)))
  read-filled conn_pools_per_node_field s =
      sym (over-none (read conn_pools_per_node_field (or_no_settings Exporter Labels s)))
  read-filled wait_for_connection_to_complete_field s =
      sym
        (over-none (read wait_for_connection_to_complete_field (or_no_settings Exporter Labels s)))
  read-filled tend_timeout_field s =
      sym (over-none (read tend_timeout_field (or_no_settings Exporter Labels s)))
  read-filled login_timeout_field s =
      sym (over-none (read login_timeout_field (or_no_settings Exporter Labels s)))
  read-filled max_socket_idle_time_field s =
      sym (over-none (read max_socket_idle_time_field (or_no_settings Exporter Labels s)))
  read-filled tend_interval_field s =
      sym (over-none (read tend_interval_field (or_no_settings Exporter Labels s)))
  read-filled num_tend_intervals_in_error_window_field s =
      sym (
        over-none
          (read num_tend_intervals_in_error_window_field (or_no_settings Exporter Labels s)))
  read-filled max_errors_in_error_window_field s =
      sym (over-none (read max_errors_in_error_window_field (or_no_settings Exporter Labels s)))
  read-filled enabled_field s =
      sym (over-none (read enabled_field (or_no_settings Exporter Labels s)))
  read-filled latency_unit_field s =
      sym (over-none (read latency_unit_field (or_no_settings Exporter Labels s)))
  read-filled latency_columns_field s =
      sym (over-none (read latency_columns_field (or_no_settings Exporter Labels s)))
  read-filled latency_shift_field s =
      sym (over-none (read latency_shift_field (or_no_settings Exporter Labels s)))
  read-filled export_interval_field s =
      sym (over-none (read export_interval_field (or_no_settings Exporter Labels s)))
  read-filled exporter_field s =
      sym (over-none (read exporter_field (or_no_settings Exporter Labels s)))
  read-filled report_dir_field s =
      sym (over-none (read report_dir_field (or_no_settings Exporter Labels s)))
  read-filled report_size_limit_field s =
      sym (over-none (read report_size_limit_field (or_no_settings Exporter Labels s)))
  read-filled sampler_range_field s =
      sym (over-none (read sampler_range_field (or_no_settings Exporter Labels s)))
  read-filled sampler_threshold_field s =
      sym (over-none (read sampler_threshold_field (or_no_settings Exporter Labels s)))
  read-filled labels_field s =
      sym (over-none (read labels_field (or_no_settings Exporter Labels s)))
  read-filled operational_enabled_field s =
      sym (over-none (read operational_enabled_field (or_no_settings Exporter Labels s)))
  read-filled usage_enabled_field s =
      sym (over-none (read usage_enabled_field (or_no_settings Exporter Labels s)))
  read-filled implicit_batch_write_transactions_field s = refl
  read-filled sleep_between_attempts_field s = refl
  read-filled number_of_attempts_field s = refl

  read-fill_hard_defaults :
      (f : Field) (s : Option (SystemSettings Exporter Labels))
      → read f (fill_hard_defaults Exporter Labels s) ≡ over (read_layer f s) (default_of f)
  read-fill_hard_defaults f s =
      read-filled f s ∙ ap (λ o. over o (default_of f)) (read-or_no_settings f s)

  read_layer-merge_settings :
      (f : Field) (hi lo : Option (SystemSettings Exporter Labels))
      → read_layer f (merge_settings Exporter Labels hi lo)
        ≡ over (read_layer f hi) (read_layer f lo)
  unfolding merge_settings
  read_layer-merge_settings f none lo = refl
  read_layer-merge_settings f (some hi) none = sym (over-none (read f hi))
  read_layer-merge_settings f (some hi) (some lo) = read-merge_both f hi lo

  -- Each field of the effective settings is the one of the cluster's own profile, else of the
  -- profile `DEFAULT`, else of the settings in code, else the hard default.
  pub read-effective :
      (f : Field) (profiles : Profiles Exporter Labels) (name : Option String)
      → (programmatic : Option (SystemSettings Exporter Labels))
      → read f (effective Exporter Labels profiles name programmatic)
        ≡ over (read_layer f (named_profile Exporter Labels profiles name)) (
            over
              (read_layer f (get str_eq "DEFAULT" profiles))
              (over (read_layer f programmatic) (default_of f)))
  unfolding effective resolve_for_cluster
  read-effective f profiles name programmatic =
      let file =
        merge_settings Exporter Labels (named_profile Exporter Labels profiles name)
          (get str_eq "DEFAULT" profiles) in
      let layers : read_layer f (merge_settings Exporter Labels file programmatic)
          ≡ over
              (over (read_layer f (named_profile Exporter Labels profiles name))
                (read_layer f (get str_eq "DEFAULT" profiles)))
              (read_layer f programmatic) =
        read_layer-merge_settings f file programmatic
        ∙ ap (λ o. over o (read_layer f programmatic))
            (read_layer-merge_settings f (named_profile Exporter Labels profiles name)
              (get str_eq "DEFAULT" profiles)) in
      read-fill_hard_defaults f (merge_settings Exporter Labels file programmatic)
      ∙ ap (λ o. over o (default_of f)) layers
      ∙ over_assoc
          (over (read_layer f (named_profile Exporter Labels profiles name))
            (read_layer f (get str_eq "DEFAULT" profiles)))
          (read_layer f programmatic) (default_of f)
      ∙ over_assoc (read_layer f (named_profile Exporter Labels profiles name))
          (read_layer f (get str_eq "DEFAULT" profiles))
          (over (read_layer f programmatic) (default_of f))
