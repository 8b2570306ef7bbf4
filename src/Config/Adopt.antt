-- ===== src/Config/Adopt.antt =====
-- `adopt_discovered_cluster_name` of aerospike_sdk/sdk_config_monitor.py: the settings of the name
-- that the server reports, where none was declared.
pub mod Laws
use aerospike_client_python.Base.{
  ℤ, String, str_eq, Bool, true, false, not, ◌&&◌, ◌||◌, is_some, Bool-cases, Option, none, some,
  Option-cases, ◌≡◌, refl, sym, ap, ap₂, subst, ◌∙◌, ◌⊎◌, inl, inr, if◌then◌else◌,
}
use aerospike_client_python.Base.Dict.{get}
use aerospike_client_python.Config.{Profiles, effective}
use aerospike_client_python.Config.Equality.{
  same_option, same_int, same_transactions, IsSound, same_option-IsSound, same_int-IsSound,
  same_transactions_sound,
}
use aerospike_client_python.Config.Poller.{Loader, Settings}

-- A field of the adopted settings `a`, or the one in force where they differ.
abbrev pub keep_spent : {A : Type 0} → (A → A → Bool) → A → A → A
keep_spent eq a b = if eq a b then a else b

module _ (L : Loader) where
  -- Without the path, which names the file in the log.
  pub record Source : Type 0 where
    pub cluster_name : Option String
    pub programmatic : Option (Settings L)
    pub initial_raw : Option L.Raw

  abbrev pub keep_int : Option ℤ → Option ℤ → Option ℤ
  keep_int a b = keep_spent (same_option same_int) a b

  -- Every field but the metrics is spent at connect.
  abbrev pub replace_spent : Settings L → Settings L → Settings L
  replace_spent a b = record {
    min_connections_per_node = keep_int a.min_connections_per_node b.min_connections_per_node;
    max_connections_per_node = keep_int a.max_connections_per_node b.max_connections_per_node;
    conn_pools_per_node = keep_int a.conn_pools_per_node b.conn_pools_per_node;
    wait_for_connection_to_complete =
        keep_int a.wait_for_connection_to_complete b.wait_for_connection_to_complete;
    tend_timeout = keep_int a.tend_timeout b.tend_timeout;
    login_timeout = keep_int a.login_timeout b.login_timeout;
    max_socket_idle_time = keep_int a.max_socket_idle_time b.max_socket_idle_time;
    tend_interval = keep_int a.tend_interval b.tend_interval;
    num_tend_intervals_in_error_window =
        keep_int a.num_tend_intervals_in_error_window b.num_tend_intervals_in_error_window;
    max_errors_in_error_window = keep_int a.max_errors_in_error_window b.max_errors_in_error_window;
    transactions =
        keep_spent (same_transactions L.same_exporter L.same_labels) a.transactions b.transactions;
    metrics = a.metrics;
  }

  abbrev pub Loaded : Type 0
  Loaded = Profiles L.Exporter L.Labels × L.Behaviors

  abbrev pub parse_initial : Option L.Raw → Option Loaded
  parse_initial none = none
  parse_initial (some raw) = L.parse raw

  -- `discovered in named_profiles(...)`
  abbrev pub is_named : String → Loaded → Bool
  is_named name loaded = is_some (get str_eq name loaded.0) && not (str_eq name "DEFAULT")

  abbrev pub adopt_block : String → Settings L → Source → Option Loaded → Settings L × Source
  unfolding effective
  adopt_block name settings source none = (settings, source)
  adopt_block name settings source (some loaded) =
      if is_named name loaded
      then (
        replace_spent (effective L.Exporter L.Labels loaded.0 (some name) source.programmatic)
            settings,
        record source { cluster_name = some name },
      )
      else (settings, source)

  unfoldable pub adopt_discovered_cluster_name :
      Option String → Settings L → Source → Settings L × Source
  adopt_discovered_cluster_name none settings source = (settings, source)
  adopt_discovered_cluster_name (some name) settings source =
      if str_eq name "" || is_some source.cluster_name
      then (settings, source)
      else adopt_block name settings source (parse_initial source.initial_raw)
