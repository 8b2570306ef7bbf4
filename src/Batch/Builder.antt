-- ===== src/Batch/Builder.antt =====
-- The chain state of `_QueryBuilderBase` in aerospike_sdk/query_shared.py, and the verbs that bound a
-- key query.
pub mod Range
pub mod Finalize
pub mod Select
pub mod Chain
use aerospike_client_python.Base.{
  ℕ, zero, suc, ◌+◌, ◌-◌, ℤ, pos, String, Bool, true, false, ◌||◌, Option, none, some, List, [],
  ◌∷◌, leb, ltb, if◌then◌else◌,
}
use aerospike_client_python.Base.Int.{leb_ℤ, ltb_ℤ}
use aerospike_client_python.Batch.Native.{Native}
use aerospike_client_python.Batch.Spec.{OperationSpec}

-- `ValueError`, and the `AerospikeError` with `OP_NOT_APPLICABLE` of server_filter.py
pub data Error : Type 0 where
  value_error : String → Error
  op_not_applicable : Error

module _ (N : Native) where
  pub record Builder : Type 0 where
    pub specs : List (OperationSpec N)
    -- the open segment
    pub single_key : Option N.Key
    pub keys : Option (List N.Key)
    pub operations : List N.Operation
    pub put_bins : Option (List (String × N.Value))
    pub bins : Option (List String)
    pub with_no_bins : Bool
    pub filter_expression : Option N.FilterExpression
    pub where_ael : Option String
    pub op_type : Option String
    pub generation : Option ℤ
    pub ttl_seconds : Option ℤ
    pub durable_delete : Option Bool
    pub durable_delete_command_default : Option Bool
    pub record_delete_in_operations : Bool
    pub udf_package : Option String
    pub udf_function : Option String
    pub udf_args : Option (List N.Value)
    -- the chain
    pub default_filter_expression : Option N.FilterExpression
    pub default_where_ael : Option String
    pub default_ttl_seconds : Option ℤ
    pub limit : Option ℕ
    pub chunk_size : Option ℕ
    pub partition_filter : Option N.PartitionFilter
    pub keys_selected : Bool
    -- the owning client
    pub supports_server_compiled_ael : Bool
    pub usage_on : Bool
    pub usage_features : Option (List String)

  -- What a method that may raise leaves: the builder as it stands, raised or not.
  pub data Outcome : Type 0 where
    done : Builder → Outcome
    raised : Error → Builder → Outcome

infixl 10 ◌>>=◌
abbrev pub ◌>>=◌ : {N : Native} → Outcome N → (Builder N → Outcome N) → Outcome N
done b >>= f = f b
raised e b >>= f = raised e b

module _ (N : Native) where
  -- `limit()`: its argument is positive from here on.
  unfoldable pub set_limit : ℤ → Builder N → Outcome N
  set_limit n b = elim n [
    | pos k ↦ elim k [
      | zero ↦ raised (value_error "Limit must be > 0") b
      | suc j ↦ done (record b { limit = some (suc j) })
    ]
    | _ ↦ raised (value_error "Limit must be > 0") b
  ]

  unfoldable pub set_chunk_size : ℤ → Builder N → Outcome N
  set_chunk_size n b = elim n [
    | pos k ↦ elim k [
      | zero ↦ raised (value_error "Chunk size must be > 0") b
      | suc j ↦ done (record b { chunk_size = some (suc j) })
    ]
    | _ ↦ raised (value_error "Chunk size must be > 0") b
  ]

  -- Both bounds are natural numbers once the tests have passed.
  abbrev set_range : ℤ → ℤ → Builder N → Builder N
  set_range (pos s) (pos e) b = record b { partition_filter = some (N.by_range s (e - s)) }
  set_range _ _ b = b

  unfoldable pub on_partition_range : ℤ → ℤ → Builder N → Outcome N
  on_partition_range start_incl end_excl b =
      if ltb_ℤ start_incl (pos 0) || leb_ℤ (pos 4096) start_incl
      then raised (value_error "Start partition must be in range 0-4095") b
      else if ltb_ℤ end_excl (pos 1) || ltb_ℤ (pos 4096) end_excl
      then raised (value_error "End partition must be in range 1-4096") b
      else if leb_ℤ end_excl start_incl
      then raised (value_error "Start partition must be < end partition") b
      else done (set_range start_incl end_excl b)
