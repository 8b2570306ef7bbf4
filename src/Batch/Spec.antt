-- ===== src/Batch/Spec.antt =====
-- `_OperationSpec` of aerospike_sdk/query_shared.py: one segment of a chain.
use aerospike_client_python.Base.{ℤ, String, Bool, Option, none, some, List, [], ◌∷◌, ◌++◌, map}
use aerospike_client_python.Batch.Native.{Native}

module _ (N : Native) where
  pub record OperationSpec : Type 0 where
    pub keys : List N.Key
    pub op_list : List N.Operation
    pub put_bins : Option (List (String × N.Value))
    pub bins : Option (List String)
    pub filter_expression : Option N.FilterExpression
    pub op_type : Option String
    pub generation : Option ℤ
    pub ttl_seconds : Option ℤ
    pub durable_delete : Option Bool
    pub durable_delete_command_default : Option Bool
    pub contains_record_delete_op : Bool
    pub udf_package : Option String
    pub udf_function : Option String
    pub udf_args : Option (List N.Value)

  -- The property `operations`: the list that it returns, and the segment that it leaves behind.
  unfoldable pub operations : OperationSpec → List N.Operation × OperationSpec
  operations spec = elim spec.put_bins [
    | none ↦ (spec.op_list, spec)
    | some puts ↦ elim puts [
      | [] ↦ (spec.op_list, spec)
      | p ∷ rest ↦
          let ops = map (λ e. N.put e.0 e.1) (p ∷ rest) ++ spec.op_list in
          (ops, record spec { op_list = ops; put_bins = none })
    ]
  ]
