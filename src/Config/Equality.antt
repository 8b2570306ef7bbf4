-- ===== src/Config/Equality.antt =====
-- The equality of the settings in aerospike_sdk/policy/system_settings.py, field by field as their
-- dataclasses compare.
use aerospike_client_python.Base.{
  ℤ, pos, negsuc, ◌==◌, ==_iff, str_eq, eq_iff, Bool, true, false, all, All, Option, none, some,
  List, [], ◌∷◌, ◌≡◌, refl, ap,
}
use aerospike_client_python.Base.Dict.{IsEquality}
use aerospike_client_python.Config.{TransactionSettings, MetricsSettings, SystemSettings}

abbrev pub same_option : {A : Type 0} → (A → A → Bool) → Option A → Option A → Bool
same_option eq none none = true
same_option eq none (some b) = false
same_option eq (some a) none = false
same_option eq (some a) (some b) = eq a b

abbrev pub same_int : ℤ → ℤ → Bool
same_int (pos m) (pos n) = m == n
same_int (pos m) (negsuc n) = false
same_int (negsuc m) (pos n) = false
same_int (negsuc m) (negsuc n) = m == n

abbrev pub same_bool : Bool → Bool → Bool
same_bool true b = b
same_bool false true = false
same_bool false false = true

-- A test that only equal values pass.
abbrev pub IsSound : {A : Type 0} → (A → A → Bool) → Type 0
IsSound {A} eq = (a b : A) → eq a b ≡ true → a ≡ b

pub same_option-IsSound : {A : Type 0} (eq : A → A → Bool) → IsSound eq → IsSound (same_option eq)
same_option-IsSound eq s none none h = refl
same_option-IsSound eq s none (some b) h = absurd (cc h)
same_option-IsSound eq s (some a) none h = absurd (cc h)
same_option-IsSound eq s (some a) (some b) h = ap some (s a b h)

pub same_int-IsSound : IsSound same_int
same_int-IsSound (pos m) (pos n) h = ap pos ((==_iff m n).0 h)
same_int-IsSound (pos m) (negsuc n) h = absurd (cc h)
same_int-IsSound (negsuc m) (pos n) h = absurd (cc h)
same_int-IsSound (negsuc m) (negsuc n) h = ap negsuc ((==_iff m n).0 h)

same_bool-IsSound : IsSound same_bool
same_bool-IsSound true true h = refl
same_bool-IsSound true false h = absurd (cc h)
same_bool-IsSound false true h = absurd (cc h)
same_bool-IsSound false false h = refl

abbrev id : Bool → Bool
id b = b

all_true : (bs : List Bool) → all id bs ≡ true → All (λ b. b ≡ true) bs
all_true [] h = tt
all_true (true ∷ bs) h = (refl, all_true bs h)
all_true (false ∷ bs) h = absurd (cc h)

module _ {Exporter Labels : Type 0} (same_exporter : Exporter → Exporter → Bool)
    (same_labels : Labels → Labels → Bool) where
  abbrev pub tests_of_transactions :
      TransactionSettings Exporter Labels → TransactionSettings Exporter Labels → List Bool
  tests_of_transactions a b =
      same_option same_bool a.implicit_batch_write_transactions b.implicit_batch_write_transactions
      ∷ same_option same_int a.sleep_between_attempts b.sleep_between_attempts
      ∷ same_option same_int a.number_of_attempts b.number_of_attempts
      ∷ []

  abbrev pub same_transactions :
      TransactionSettings Exporter Labels → TransactionSettings Exporter Labels → Bool
  same_transactions a b = all id (tests_of_transactions a b)

  abbrev pub tests_of_metrics :
      MetricsSettings Exporter Labels → MetricsSettings Exporter Labels → List Bool
  tests_of_metrics a b =
      same_option same_bool a.enabled b.enabled
      ∷ same_option str_eq a.latency_unit b.latency_unit
      ∷ same_option same_int a.latency_columns b.latency_columns
      ∷ same_option same_int a.latency_shift b.latency_shift
      ∷ same_option same_int a.export_interval b.export_interval
      ∷ same_option same_exporter a.exporter b.exporter
      ∷ same_option str_eq a.report_dir b.report_dir
      ∷ same_option same_int a.report_size_limit b.report_size_limit
      ∷ same_option same_int a.sampler_range b.sampler_range
      ∷ same_option same_int a.sampler_threshold b.sampler_threshold
      ∷ same_option same_labels a.labels b.labels
      ∷ same_option same_bool a.operational_enabled b.operational_enabled
      ∷ same_option same_bool a.usage_enabled b.usage_enabled
      ∷ []

  abbrev pub same_metrics : MetricsSettings Exporter Labels → MetricsSettings Exporter Labels → Bool
  same_metrics a b = all id (tests_of_metrics a b)

  abbrev pub tests_of_settings :
      SystemSettings Exporter Labels → SystemSettings Exporter Labels → List Bool
  tests_of_settings a b =
      same_option same_int a.min_connections_per_node b.min_connections_per_node
      ∷ same_option same_int a.max_connections_per_node b.max_connections_per_node
      ∷ same_option same_int a.conn_pools_per_node b.conn_pools_per_node
      ∷ same_option same_int a.wait_for_connection_to_complete b.wait_for_connection_to_complete
      ∷ same_option same_int a.tend_timeout b.tend_timeout
      ∷ same_option same_int a.login_timeout b.login_timeout
      ∷ same_option same_int a.max_socket_idle_time b.max_socket_idle_time
      ∷ same_option same_int a.tend_interval b.tend_interval
      ∷ same_option same_int a.num_tend_intervals_in_error_window
          b.num_tend_intervals_in_error_window
      ∷ same_option same_int a.max_errors_in_error_window b.max_errors_in_error_window
      ∷ same_transactions a.transactions b.transactions
      ∷ same_metrics a.metrics b.metrics
      ∷ []

  abbrev pub same_settings : SystemSettings Exporter Labels → SystemSettings Exporter Labels → Bool
  same_settings a b = all id (tests_of_settings a b)

  module _ (exporter_law : IsEquality same_exporter) (labels_law : IsEquality same_labels) where
    exporter-IsSound : IsSound same_exporter
    exporter-IsSound a b = (exporter_law a b).0

    labels-IsSound : IsSound same_labels
    labels-IsSound a b = (labels_law a b).0

    text-IsSound : IsSound str_eq
    text-IsSound a b = (eq_iff a b).0

    pub same_transactions_sound :
        (a b : TransactionSettings Exporter Labels) → same_transactions a b ≡ true → a ≡ b
    same_transactions_sound a b h =
        let t = all_true (tests_of_transactions a b) h in
        λ i. record {
          implicit_batch_write_transactions =
              same_option-IsSound same_bool same_bool-IsSound a.implicit_batch_write_transactions
                b.implicit_batch_write_transactions (t.0) i;
          sleep_between_attempts =
              same_option-IsSound same_int same_int-IsSound a.sleep_between_attempts
                b.sleep_between_attempts (t.1.0) i;
          number_of_attempts =
              same_option-IsSound same_int same_int-IsSound a.number_of_attempts
                b.number_of_attempts (t.1.1.0) i;
        }

    same_metrics_sound : (a b : MetricsSettings Exporter Labels) → same_metrics a b ≡ true → a ≡ b
    same_metrics_sound a b h =
        let t = all_true (tests_of_metrics a b) h in
        λ i. record {
          enabled = same_option-IsSound same_bool same_bool-IsSound a.enabled b.enabled (t.0) i;
          latency_unit =
              same_option-IsSound str_eq text-IsSound a.latency_unit b.latency_unit (t.1.0) i;
          latency_columns =
              same_option-IsSound same_int same_int-IsSound a.latency_columns b.latency_columns
                (t.1.1.0) i;
          latency_shift =
              same_option-IsSound same_int same_int-IsSound a.latency_shift b.latency_shift
                (t.1.1.1.0) i;
          export_interval =
              same_option-IsSound same_int same_int-IsSound a.export_interval b.export_interval
                (t.1.1.1.1.0) i;
          exporter =
              same_option-IsSound same_exporter exporter-IsSound a.exporter b.exporter
                (t.1.1.1.1.1.0) i;
          report_dir =
              same_option-IsSound str_eq text-IsSound a.report_dir b.report_dir (t.1.1.1.1.1.1.0) i;
          report_size_limit =
              same_option-IsSound same_int same_int-IsSound a.report_size_limit b.report_size_limit
                (t.1.1.1.1.1.1.1.0) i;
          sampler_range =
              same_option-IsSound same_int same_int-IsSound a.sampler_range b.sampler_range
                (t.1.1.1.1.1.1.1.1.0) i;
          sampler_threshold =
              same_option-IsSound same_int same_int-IsSound a.sampler_threshold b.sampler_threshold
                (t.1.1.1.1.1.1.1.1.1.0) i;
          labels =
              same_option-IsSound same_labels labels-IsSound a.labels b.labels
                (t.1.1.1.1.1.1.1.1.1.1.0) i;
          operational_enabled =
              same_option-IsSound same_bool same_bool-IsSound a.operational_enabled
                b.operational_enabled (t.1.1.1.1.1.1.1.1.1.1.1.0) i;
          usage_enabled =
              same_option-IsSound same_bool same_bool-IsSound a.usage_enabled b.usage_enabled
                (t.1.1.1.1.1.1.1.1.1.1.1.1.0) i;
        }

    pub same_settings_sound :
        (a b : SystemSettings Exporter Labels) → same_settings a b ≡ true → a ≡ b
    same_settings_sound a b h =
        let t = all_true (tests_of_settings a b) h in
        λ i. record {
          min_connections_per_node =
              same_option-IsSound same_int same_int-IsSound a.min_connections_per_node
                b.min_connections_per_node (t.0) i;
          max_connections_per_node =
              same_option-IsSound same_int same_int-IsSound a.max_connections_per_node
                b.max_connections_per_node (t.1.0) i;
          conn_pools_per_node =
              same_option-IsSound same_int same_int-IsSound a.conn_pools_per_node
                b.conn_pools_per_node (t.1.1.0) i;
          wait_for_connection_to_complete =
              same_option-IsSound same_int same_int-IsSound a.wait_for_connection_to_complete
                b.wait_for_connection_to_complete (t.1.1.1.0) i;
          tend_timeout =
              same_option-IsSound same_int same_int-IsSound a.tend_timeout b.tend_timeout
                (t.1.1.1.1.0) i;
          login_timeout =
              same_option-IsSound same_int same_int-IsSound a.login_timeout b.login_timeout
                (t.1.1.1.1.1.0) i;
          max_socket_idle_time =
              same_option-IsSound same_int same_int-IsSound a.max_socket_idle_time
                b.max_socket_idle_time (t.1.1.1.1.1.1.0) i;
          tend_interval =
              same_option-IsSound same_int same_int-IsSound a.tend_interval b.tend_interval
                (t.1.1.1.1.1.1.1.0) i;
          num_tend_intervals_in_error_window =
              same_option-IsSound same_int same_int-IsSound a.num_tend_intervals_in_error_window
                b.num_tend_intervals_in_error_window (t.1.1.1.1.1.1.1.1.0) i;
          max_errors_in_error_window =
              same_option-IsSound same_int same_int-IsSound a.max_errors_in_error_window
                b.max_errors_in_error_window (t.1.1.1.1.1.1.1.1.1.0) i;
          transactions =
              same_transactions_sound a.transactions b.transactions (t.1.1.1.1.1.1.1.1.1.1.0) i;
          metrics = same_metrics_sound a.metrics b.metrics (t.1.1.1.1.1.1.1.1.1.1.1.0) i;
        }
