-- ===== src/Config/Adopt/Laws.antt =====
-- What `adopt_discovered_cluster_name` of aerospike_sdk/sdk_config_monitor.py changes.
use aerospike_client_python.Base.{
  ℤ, String, str_eq, Bool, true, false, ◌||◌, is_some, Bool-cases, Option, none, some, Option-cases,
  or_false, ◌≡◌, refl, ap, subst, ◌∙◌, ◌⊎◌, inl, inr,
}
use aerospike_client_python.Config.{effective}
use aerospike_client_python.Config.Equality.{
  same_option, same_int, same_transactions, IsSound, same_option-IsSound, same_int-IsSound,
  same_transactions_sound,
}
use aerospike_client_python.Config.Poller.{Loader, Settings}
use aerospike_client_python.Config.Adopt.{
  keep_spent, keep_int, replace_spent, Source, Loaded, parse_initial, is_named, adopt_block,
  adopt_discovered_cluster_name,
}

undeclared_lem : (name : Option String) → is_some name ≡ false → name ≡ none
undeclared_lem none h = refl
undeclared_lem (some name) h = absurd (cc h)

module _ (L : Loader) where
  keep_spent_lem : {A : Type 0} (eq : A → A → Bool) → IsSound eq → (a b : A) → keep_spent eq a b ≡ b
  keep_spent_lem eq sound a b = elim (Bool-cases (eq a b)) [
    | inl h ↦ rw h (sound a b h)
    | inr h ↦ rw h refl
  ]

  keep_int_lem : (a b : Option ℤ) → keep_int L a b ≡ b
  keep_int_lem a b =
      keep_spent_lem (same_option same_int) (same_option-IsSound same_int same_int-IsSound) a b

  replace_spent_lem : (a b : Settings L) → replace_spent L a b ≡ record b { metrics = a.metrics }
  replace_spent_lem a b = λ i. record {
    min_connections_per_node = keep_int_lem a.min_connections_per_node b.min_connections_per_node i;
    max_connections_per_node = keep_int_lem a.max_connections_per_node b.max_connections_per_node i;
    conn_pools_per_node = keep_int_lem a.conn_pools_per_node b.conn_pools_per_node i;
    wait_for_connection_to_complete =
        keep_int_lem a.wait_for_connection_to_complete b.wait_for_connection_to_complete i;
    tend_timeout = keep_int_lem a.tend_timeout b.tend_timeout i;
    login_timeout = keep_int_lem a.login_timeout b.login_timeout i;
    max_socket_idle_time = keep_int_lem a.max_socket_idle_time b.max_socket_idle_time i;
    tend_interval = keep_int_lem a.tend_interval b.tend_interval i;
    num_tend_intervals_in_error_window =
        keep_int_lem a.num_tend_intervals_in_error_window b.num_tend_intervals_in_error_window i;
    max_errors_in_error_window =
        keep_int_lem a.max_errors_in_error_window b.max_errors_in_error_window i;
    transactions =
        keep_spent_lem (same_transactions L.same_exporter L.same_labels)
          (same_transactions_sound L.same_exporter L.same_labels L.same_exporter-IsEquality
            L.same_labels-IsEquality)
          a.transactions b.transactions i;
    metrics = a.metrics;
  }

  -- The metrics of the block `name` join the settings in force, and the name the source.
  abbrev pub adopted : String → Settings L → Source L → Loaded L → Settings L × Source L
  unfolding effective
  adopted name settings source loaded = (
    record settings {
      metrics = (effective L.Exporter L.Labels loaded.0 (some name) source.programmatic).metrics;
    },
    record source { cluster_name = some name },
  )

  -- Whether and how the block of a name is taken.
  abbrev pub IsAdoption : Option String → Settings L → Source L → Settings L × Source L → Type 0
  IsAdoption discovered settings source r =
      (name : String) × (loaded : Loaded L) × (discovered ≡ some name)
      × (source.cluster_name ≡ none)
      × (parse_initial L source.initial_raw ≡ some loaded)
      × (is_named L name loaded ≡ true)
      × (r ≡ adopted name settings source loaded)

  adopt_block-is_named :
      (name : String) (settings : Settings L) (source : Source L) (loaded : Loaded L)
      → is_named L name loaded ≡ true
      → adopt_block L name settings source (some loaded) ≡ adopted name settings source loaded
  unfolding adopt_block adopted
  adopt_block-is_named name settings source loaded h = rw h (
      ap (λ s. (s, record source { cluster_name = some name }))
        (replace_spent_lem (effective L.Exporter L.Labels loaded.0 (some name) source.programmatic)
          settings))

  adopt_block_lem :
      (name : String) (settings : Settings L) (source : Source L)
      → source.cluster_name ≡ none
      → (adopt_block L name settings source (parse_initial L source.initial_raw)
          ≡ (settings, source))
        ⊎ IsAdoption
            (some name)
            settings
            source
            (adopt_block L name settings source (parse_initial L source.initial_raw))
  unfolding adopt_block
  adopt_block_lem name settings source undeclared =
      elim (Option-cases (parse_initial L source.initial_raw)) [
        | inl e ↦ inl (ap (adopt_block L name settings source) e)
        | inr e ↦ elim (Bool-cases (is_named L name (e.0))) [
          | inl h ↦ inr (
            name,
            e.0,
            refl,
            undeclared,
            e.1,
            h,
            ap (adopt_block L name settings source) (e.1)
                ∙ adopt_block-is_named name settings source (e.0) h,
          )
          | inr h ↦ inl (ap (adopt_block L name settings source) (e.1) ∙ rw h refl)
        ]
      ]

  -- Adoption leaves the settings and the source as they are, or takes the block of the reported
  -- name, where no name was declared and the file has that block, and not as `DEFAULT`: then the
  -- metrics are those that the file resolves to under that name, which the source keeps, and no
  -- other setting changes, those of transactions neither.
  pub adopt_discovered_cluster_name_lem :
      (discovered : Option String) (settings : Settings L) (source : Source L)
      → (adopt_discovered_cluster_name L discovered settings source ≡ (settings, source))
        ⊎ IsAdoption discovered settings source
            (adopt_discovered_cluster_name L discovered settings source)
  unfolding adopt_discovered_cluster_name
  adopt_discovered_cluster_name_lem none settings source = inl refl
  adopt_discovered_cluster_name_lem (some name) settings source =
      elim (Bool-cases (str_eq name "" || is_some source.cluster_name)) [
        | inl h ↦ inl (rw h refl)
        | inr h ↦
            subst (λ r. (r ≡ (settings, source)) ⊎ IsAdoption (some name) settings source r)
              (rw h refl)
              (adopt_block_lem name settings source (
                undeclared_lem source.cluster_name
                  (or_false (str_eq name "") (is_some source.cluster_name) h).1))
      ]
