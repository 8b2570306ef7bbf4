-- ===== src/Batch/Builder/Finalize.antt =====
-- `_finalize_current_spec`, `_finalize_udf_spec` and what they call, in
-- aerospike_sdk/query_shared.py: the open segment is packaged and the state cleared for the next.
use aerospike_client_python.Base.{
  String, Bool, false, ◌||◌, Option, none, some, List, [], ◌∷◌, ◌++◌, any, is_some, is_none,
  if◌then◌else◌,
}
use aerospike_client_python.Batch.Native.{Native}
use aerospike_client_python.Batch.Builder.{
  value_error, op_not_applicable, Builder, Outcome, done, raised, ◌>>=◌,
}

module _ (N : Native) where
  -- `bool(x)` of an optional flag
  abbrev truthy : Option Bool → Bool
  truthy none = false
  truthy (some b) = b

  abbrev list_or_nil : Option (List String) → List String
  list_or_nil none = []
  list_or_nil (some l) = l

  abbrev when : Bool → String → List String
  when b s = if b then s ∷ [] else []

  pub collect_segment_usage : Builder N → Builder N
  collect_segment_usage b =
      let filters =
        if is_some b.where_ael || is_some b.default_where_ael
        then "feature.filter.ael" ∷ []
        else when (is_some b.filter_expression || is_some b.default_filter_expression)
            "feature.filter.exp" in
      let features =
        list_or_nil b.usage_features
        ++ (filters
            ++ (when (truthy b.durable_delete || truthy b.durable_delete_command_default)
                  "feature.write.durable_delete"
                ++ (when (is_some b.udf_function) "feature.udf.record"
                    ++ when (any N.is_cdt b.operations) "feature.cdt"))) in
      record b { usage_features = some features }

  -- `filter_expression_from_ael_string` of server_filter.py, stored by `store`.
  abbrev pub resolve : (N.FilterExpression → Builder N → Builder N) → String → Builder N → Outcome N
  resolve store ael b =
      if b.supports_server_compiled_ael
      then done (store (N.from_server_compiled_ael ael) b)
      else raised op_not_applicable b

  unfoldable pub resolve_where_filter_expression : Builder N → Outcome N
  resolve_where_filter_expression b = elim b.where_ael [
    | none ↦ done b
    | some ael ↦
        if is_none b.filter_expression
        then resolve (λ f c. record c { filter_expression = some f }) ael b
        else done b
  ]

  unfoldable pub resolve_default_filter_expression : Builder N → Outcome N
  resolve_default_filter_expression b = elim b.default_where_ael [
    | none ↦ done b
    | some ael ↦
        if is_none b.default_filter_expression
        then resolve (λ f c. record c { default_filter_expression = some f }) ael b
        else done b
  ]

  abbrev segment_keys : Builder N → Option (List N.Key)
  segment_keys b = elim b.single_key [ none ↦ b.keys | some key ↦ some (key ∷ []) ]

  unfoldable pub clear_segment : Builder N → Builder N
  clear_segment b = record b {
    single_key = none;
    keys = none;
    operations = [];
    put_bins = none;
    bins = none;
    with_no_bins = false;
    filter_expression = none;
    where_ael = none;
    op_type = none;
    generation = none;
    ttl_seconds = none;
    durable_delete = none;
    durable_delete_command_default = none;
    record_delete_in_operations = false;
  }

  abbrev pub with_usage : Builder N → Builder N
  with_usage b = if b.usage_on then collect_segment_usage b else b

  unfoldable pub append_spec : List N.Key → Builder N → Outcome N
  unfolding clear_segment
  append_spec ks b = done (record (clear_segment b) {
    specs =
        b.specs
        ++ (record {
          keys = ks;
          op_list = b.operations;
          put_bins = b.put_bins;
          bins = b.bins;
          filter_expression = b.filter_expression;
          op_type = b.op_type;
          generation = b.generation;
          ttl_seconds = b.ttl_seconds;
          durable_delete = b.durable_delete;
          durable_delete_command_default = b.durable_delete_command_default;
          contains_record_delete_op = b.record_delete_in_operations;
          udf_package = none;
          udf_function = none;
          udf_args = none;
        }
            ∷ []);
  })

  unfoldable pub finalize_current_spec : Builder N → Outcome N
  unfolding append_spec resolve_where_filter_expression collect_segment_usage
  finalize_current_spec b = elim (segment_keys b) as (λ _. Outcome N) [
    | none ↦ done b
    | some ks ↦ resolve_where_filter_expression (with_usage b) >>= append_spec ks
  ]

  append_udf_spec : List N.Key → Builder N → Outcome N
  unfolding clear_segment
  append_udf_spec ks b = done (record (clear_segment b) {
    specs =
        b.specs
        ++ (record {
          keys = ks;
          op_list = [];
          put_bins = none;
          bins = none;
          filter_expression = b.filter_expression;
          op_type = some "udf";
          generation = none;
          ttl_seconds = b.ttl_seconds;
          durable_delete = b.durable_delete;
          durable_delete_command_default = b.durable_delete_command_default;
          contains_record_delete_op = false;
          udf_package = b.udf_package;
          udf_function = b.udf_function;
          udf_args = b.udf_args;
        }
            ∷ []);
    udf_package = none;
    udf_function = none;
    udf_args = none;
  })

  unfoldable pub finalize_udf_spec : Builder N → Outcome N
  unfolding append_udf_spec resolve_where_filter_expression collect_segment_usage
  finalize_udf_spec b = elim b.udf_function as (λ _. Outcome N) [
    | none ↦ done b
    | some _ ↦
        if is_none b.udf_package
        then raised (value_error "UDF package name is required") b
        else elim (segment_keys b) as (λ _. Outcome N) [
          | none ↦ done b
          | some ks ↦ resolve_where_filter_expression (with_usage b) >>= append_udf_spec ks
        ]
  ]
