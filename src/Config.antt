-- ===== src/Config.antt =====
-- The settings of a cluster and their layers: aerospike_sdk/policy/system_settings.py, and the
-- resolution in sdk_config_loader.py.
pub mod Fields
pub mod Equality
pub mod Topo
pub mod Poller
pub mod Adopt
use aerospike_client_python.Base.{
  ℤ, pos, String, str_eq, Bool, true, Option, none, some, List, if◌then◌else◌,
}
use aerospike_client_python.Base.Dict.{get}

-- `hi if hi is not None else lo`
abbrev pub over : {A : Type 0} → Option A → Option A → Option A
over none lo = lo
over (some hi) lo = some hi

-- Durations are whole microseconds; `Exporter` and `Labels` are what two of the fields hold.
module _ (Exporter Labels : Type 0) where
  pub record TransactionSettings : Type 0 where
    pub implicit_batch_write_transactions : Option Bool
    pub sleep_between_attempts : Option ℤ
    pub number_of_attempts : Option ℤ

  pub record MetricsSettings : Type 0 where
    pub enabled : Option Bool
    pub latency_unit : Option String
    pub latency_columns : Option ℤ
    pub latency_shift : Option ℤ
    pub export_interval : Option ℤ
    pub exporter : Option Exporter
    pub report_dir : Option String
    pub report_size_limit : Option ℤ
    pub sampler_range : Option ℤ
    pub sampler_threshold : Option ℤ
    pub labels : Option Labels
    pub operational_enabled : Option Bool
    pub usage_enabled : Option Bool

  pub record SystemSettings : Type 0 where
    pub min_connections_per_node : Option ℤ
    pub max_connections_per_node : Option ℤ
    pub conn_pools_per_node : Option ℤ
    pub wait_for_connection_to_complete : Option ℤ
    pub tend_timeout : Option ℤ
    pub login_timeout : Option ℤ
    pub max_socket_idle_time : Option ℤ
    pub tend_interval : Option ℤ
    pub num_tend_intervals_in_error_window : Option ℤ
    pub max_errors_in_error_window : Option ℤ
    pub transactions : TransactionSettings
    pub metrics : MetricsSettings

  abbrev pub no_settings : SystemSettings
  no_settings = record {
    min_connections_per_node = none;
    max_connections_per_node = none;
    conn_pools_per_node = none;
    wait_for_connection_to_complete = none;
    tend_timeout = none;
    login_timeout = none;
    max_socket_idle_time = none;
    tend_interval = none;
    num_tend_intervals_in_error_window = none;
    max_errors_in_error_window = none;
    transactions = record {
      implicit_batch_write_transactions = none;
      sleep_between_attempts = none;
      number_of_attempts = none;
    };
    metrics = record {
      enabled = none;
      latency_unit = none;
      latency_columns = none;
      latency_shift = none;
      export_interval = none;
      exporter = none;
      report_dir = none;
      report_size_limit = none;
      sampler_range = none;
      sampler_threshold = none;
      labels = none;
      operational_enabled = none;
      usage_enabled = none;
    };
  }

  abbrev pub merge_transactions : TransactionSettings → TransactionSettings → TransactionSettings
  merge_transactions hi lo = record {
    implicit_batch_write_transactions =
        over hi.implicit_batch_write_transactions lo.implicit_batch_write_transactions;
    sleep_between_attempts = over hi.sleep_between_attempts lo.sleep_between_attempts;
    number_of_attempts = over hi.number_of_attempts lo.number_of_attempts;
  }

  abbrev pub merge_metrics : MetricsSettings → MetricsSettings → MetricsSettings
  merge_metrics hi lo = record {
    enabled = over hi.enabled lo.enabled;
    latency_unit = over hi.latency_unit lo.latency_unit;
    latency_columns = over hi.latency_columns lo.latency_columns;
    latency_shift = over hi.latency_shift lo.latency_shift;
    export_interval = over hi.export_interval lo.export_interval;
    exporter = over hi.exporter lo.exporter;
    report_dir = over hi.report_dir lo.report_dir;
    report_size_limit = over hi.report_size_limit lo.report_size_limit;
    sampler_range = over hi.sampler_range lo.sampler_range;
    sampler_threshold = over hi.sampler_threshold lo.sampler_threshold;
    labels = over hi.labels lo.labels;
    operational_enabled = over hi.operational_enabled lo.operational_enabled;
    usage_enabled = over hi.usage_enabled lo.usage_enabled;
  }

  -- The merge of two layers that are there.
  abbrev pub merge_both : SystemSettings → SystemSettings → SystemSettings
  merge_both hi lo = record {
    min_connections_per_node = over hi.min_connections_per_node lo.min_connections_per_node;
    max_connections_per_node = over hi.max_connections_per_node lo.max_connections_per_node;
    conn_pools_per_node = over hi.conn_pools_per_node lo.conn_pools_per_node;
    wait_for_connection_to_complete =
        over hi.wait_for_connection_to_complete lo.wait_for_connection_to_complete;
    tend_timeout = over hi.tend_timeout lo.tend_timeout;
    login_timeout = over hi.login_timeout lo.login_timeout;
    max_socket_idle_time = over hi.max_socket_idle_time lo.max_socket_idle_time;
    tend_interval = over hi.tend_interval lo.tend_interval;
    num_tend_intervals_in_error_window =
        over hi.num_tend_intervals_in_error_window lo.num_tend_intervals_in_error_window;
    max_errors_in_error_window = over hi.max_errors_in_error_window lo.max_errors_in_error_window;
    transactions = merge_transactions hi.transactions lo.transactions;
    metrics = merge_metrics hi.metrics lo.metrics;
  }

  unfoldable pub merge_settings :
      Option SystemSettings → Option SystemSettings → Option SystemSettings
  merge_settings none lower = lower
  merge_settings (some higher) none = some higher
  merge_settings (some higher) (some lower) = some (merge_both higher lower)

  -- `profiles.get(name)`
  abbrev pub Profiles : Type 0
  Profiles = List (String × SystemSettings)

  abbrev pub named_profile : Profiles → Option String → Option SystemSettings
  named_profile profiles none = none
  named_profile profiles (some name) = if str_eq name "" then none else get str_eq name profiles

  unfoldable pub resolve_for_cluster : Profiles → Option String → Option SystemSettings
  unfolding merge_settings
  resolve_for_cluster profiles cluster_name =
      merge_settings (named_profile profiles cluster_name) (get str_eq "DEFAULT" profiles)

  -- `_HARD_DEFAULT_IMPLICIT_BATCH_WRITE_TXNS` and its two siblings.
  abbrev pub hard_defaults : TransactionSettings
  hard_defaults = record {
    implicit_batch_write_transactions = some true;
    sleep_between_attempts = some (pos 20000);
    number_of_attempts = some (pos 10);
  }

  abbrev pub or_no_settings : Option SystemSettings → SystemSettings
  or_no_settings none = no_settings
  or_no_settings (some settings) = settings

  unfoldable pub fill_hard_defaults : Option SystemSettings → SystemSettings
  fill_hard_defaults settings =
      let s = or_no_settings settings in
      record s { transactions = merge_transactions s.transactions hard_defaults }

  -- The settings that a file's profiles and the code's layer come to.
  unfoldable pub effective : Profiles → Option String → Option SystemSettings → SystemSettings
  unfolding resolve_for_cluster merge_settings fill_hard_defaults
  effective profiles cluster_name programmatic =
      fill_hard_defaults (merge_settings (resolve_for_cluster profiles cluster_name) programmatic)
