-- ===== src/Dispatch/Ops.antt =====
-- `_spec_to_batch_ops` of aerospike_sdk/query_shared.py, and the one call that
-- `_execute_specs_batch` of aerospike_sdk/aio/operations/query.py makes of a run of segments.
pub mod Laws
use aerospike_client_python.Base.{
  String, str_eq, Bool, true, false, is_some, Option, none, some, List, [], ◌∷◌, ◌++◌, map,
  if◌then◌else◌,
}
use aerospike_client_python.Batch.Native.{Native}
use aerospike_client_python.Batch.Spec.{OperationSpec, operations}
use aerospike_client_python.Policy.Settings.{Enums, Mode, ap, sc}
use aerospike_client_python.Dispatch.{Context, mode_for_namespace}
use aerospike_client_python.Dispatch.Policies.{
  BatchWritePolicy, BatchDeletePolicy, BatchUdfPolicy, Caches, make_batch_delete_policy,
  make_batch_udf_policy, make_batch_write_policy_mixed,
}

-- The verbs that `_spec_to_batch_ops` tells apart.
pub data Verb : Type 0 where
  reads deletes touches existence applies writes : Verb

abbrev pub verb : Option String → Verb
verb none = reads
verb (some op_type) =
    if str_eq op_type "delete"
    then deletes
    else if str_eq op_type "touch"
    then touches
    else if str_eq op_type "exists"
    then existence
    else if str_eq op_type "udf"
    then applies
    else writes

module _ (N : Native) (E : Enums) where
  -- A read row's policy is its filter, if it has one.
  pub data BatchOp : Type 0 where
    read_operations : N.Key → List N.Operation → Option N.FilterExpression → BatchOp
    read_bins : N.Key → Option (List String) → Option N.FilterExpression → BatchOp
    write_op :
        N.Key
        → List N.Operation
        → Option (BatchWritePolicy N E)
        → Option (List (String × N.Value))
        → BatchOp
    delete_op : N.Key → Option (BatchDeletePolicy N E) → BatchOp
    udf_op :
        N.Key
        → Option String
        → Option String
        → Option (List N.Value)
        → Option (BatchUdfPolicy N E)
        → BatchOp

  abbrev pub key_of : BatchOp → N.Key
  key_of (read_operations key ops policy) = key
  key_of (read_bins key bins policy) = key
  key_of (write_op key ops policy puts) = key
  key_of (delete_op key policy) = key
  key_of (udf_op key module_name function args policy) = key

  abbrev pub choose : {P : Type 0} → P → P → Mode → P
  choose for_ap for_sc ap = for_ap
  choose for_ap for_sc sc = for_sc

  -- `touch` is `Operation.touch()`.
  module _ (touch : N.Operation) (c : Context N E) where
    -- `per_mode`, which makes the policy of AP first.
    abbrev pub per_mode :
        {P : Type 0}
        → (Option Mode → Caches N E → P × Caches N E)
        → Caches N E
        → (N.Key → P) × Caches N E
    unfolding mode_for_namespace
    per_mode make t =
        let for_ap = make (some ap) t in
        let for_sc = make (some sc) for_ap.1 in
        (λ key. choose for_ap.0 for_sc.0 (mode_for_namespace N E c (N.namespace key)), for_sc.1)

    abbrev pub for_all :
        {P : Type 0}
        → (Option Mode → Caches N E → P × Caches N E)
        → Caches N E
        → (N.Key → P) × Caches N E
    for_all make t = let made = make none t in (λ key. made.0, made.1)

    -- The policy of each row: one for each mode where the batch spans namespaces, or one for all.
    abbrev pub row_policies :
        {P : Type 0}
        → (Option Mode → Caches N E → P × Caches N E)
        → Caches N E
        → (N.Key → P) × Caches N E
    unfolding per_mode
    row_policies make t =
        if is_some c.batch_namespace_modes then per_mode make t else for_all make t

    abbrev pub read_row : OperationSpec N → List N.Operation → N.Key → BatchOp
    read_row spec [] key = read_bins key spec.bins spec.filter_expression
    read_row spec (op ∷ ops) key = read_operations key (op ∷ ops) spec.filter_expression

    abbrev pub write_rows :
        List N.Operation
        → Option (List (String × N.Value))
        → OperationSpec N
        → Caches N E
        → List BatchOp × Caches N E
    unfolding row_policies make_batch_write_policy_mixed
    write_rows ops puts spec t =
        let p = row_policies (make_batch_write_policy_mixed N E c spec) t in
        (map (λ key. write_op key ops (p.0 key) puts) spec.keys, p.1)

    abbrev pub rows_of : Verb → OperationSpec N → Caches N E → List BatchOp × Caches N E
    unfolding row_policies make_batch_delete_policy make_batch_udf_policy write_rows operations
    rows_of reads spec t = (map (read_row spec (operations N spec).0) spec.keys, t)
    rows_of deletes spec t =
        let p = row_policies (make_batch_delete_policy N E c spec) t in
        (map (λ key. delete_op key (p.0 key)) spec.keys, p.1)
    rows_of touches spec t = write_rows (touch ∷ []) none spec t
    rows_of existence spec t =
        (map (λ key. read_bins key (some []) spec.filter_expression) spec.keys, t)
    rows_of applies spec t =
        let p = row_policies (make_batch_udf_policy N E c spec) t in
        (
          map (λ key. udf_op key spec.udf_package spec.udf_function spec.udf_args (p.0 key))
              spec.keys,
          p.1,
        )
    rows_of writes spec t = write_rows spec.op_list spec.put_bins spec t

    unfoldable pub spec_to_batch_ops : OperationSpec N → Caches N E → List BatchOp × Caches N E
    unfolding rows_of
    spec_to_batch_ops spec t = rows_of (verb spec.op_type) spec t

    -- What `_execute_specs_batch` hands to the client, and the keys and verbs that it keeps to
    -- read the answer.
    pub record Call : Type 0 where
      pub all_ops : List BatchOp
      pub all_keys : List N.Key
      pub row_op_types : List (Option String)

    abbrev pub no_call : Call
    no_call = record { all_ops = []; all_keys = []; row_op_types = [] }

    -- `[spec.op_type] * len(spec_ops)`
    abbrev pub repeat : Option String → List BatchOp → List (Option String)
    repeat op_type ops = map (λ op. op_type) ops

    unfoldable pub specs_call : List (OperationSpec N) → Call → Caches N E → Call × Caches N E
    unfolding spec_to_batch_ops
    specs_call [] call t = (call, t)
    specs_call (spec ∷ specs) call t =
        let spec_ops = spec_to_batch_ops spec t in
        specs_call specs
          (record {
            all_ops = call.all_ops ++ spec_ops.0;
            all_keys = call.all_keys ++ spec.keys;
            row_op_types = call.row_op_types ++ repeat spec.op_type spec_ops.0;
          })
          spec_ops.1
