-- ===== src/Batch/Builder/Select.antt =====
-- `_select_keys` of aerospike_sdk/query_shared.py: which keys of a chain of reads a partition filter
-- and `limit()` leave.
pub mod Laws
use aerospike_client_python.Base.{
  ℕ, zero, suc, ◌+◌, ◌-◌, String, Bool, true, false, ◌&&◌, not, Option, none, some, List, [], ◌∷◌,
  ◌++◌, any, keep, take, length, leb, ltb, map, flatten, str_eq, if◌then◌else◌,
}
use aerospike_client_python.Batch.Native.{Native}
use aerospike_client_python.Batch.Spec.{OperationSpec}
use aerospike_client_python.Batch.Builder.{value_error, Builder, Outcome, done, raised}

abbrev pub write_message : String
write_message =
    "limit() and partition filters on a key query cannot be combined with a chained write or UDF call"

abbrev pub resume_message : String
resume_message =
    "A PartitionFilter with resume state applies only to dataset queries, not to a key query"

module _ (N : Native) where
  -- `spec.op_type is not None and spec.op_type != "exists"`
  abbrev pub changes : OperationSpec N → Bool
  changes spec = elim spec.op_type [ none ↦ false | some op_type ↦ not (str_eq op_type "exists") ]

  -- `begin <= key.partition_id < end`
  abbrev pub in_range : N.PartitionFilter → N.Key → Bool
  in_range pf key =
      leb (N.begin pf) (N.partition_id key) && ltb (N.partition_id key) (N.begin pf + N.count pf)

  -- The filter's two comprehensions: the keys of each segment, then the segments that keep a key.
  unfoldable pub narrow : N.PartitionFilter → List (OperationSpec N) → List (OperationSpec N)
  narrow pf [] = []
  narrow pf (spec ∷ specs) =
      let rest = narrow pf specs in
      elim (keep (in_range pf) spec.keys) [
        | [] ↦ rest
        | key ∷ keys ↦ record spec { keys = key ∷ keys } ∷ rest
      ]

  -- The loop of the limit, which cuts the segment that reaches it and drops the later ones.
  unfoldable pub cut_to : ℕ → List (OperationSpec N) → List (OperationSpec N)
  cut_to remaining [] = []
  cut_to remaining (spec ∷ specs) =
      let rest = cut_to (remaining - length spec.keys) specs in
      if leb remaining (length spec.keys)
      then record spec { keys = take remaining spec.keys } ∷ []
      else spec ∷ rest

  abbrev pub cut_to_limit : Option ℕ → List (OperationSpec N) → List (OperationSpec N)
  cut_to_limit none specs = specs
  cut_to_limit (some n) specs = cut_to n specs

  abbrev pub narrow_by : Option N.PartitionFilter → List (OperationSpec N) → List (OperationSpec N)
  narrow_by none specs = specs
  narrow_by (some pf) specs = narrow pf specs

  abbrev pub resumes : Option N.PartitionFilter → Bool
  resumes none = false
  resumes (some pf) = N.has_resume_state pf

  unfoldable pub select_keys : Builder N → Outcome N
  unfolding narrow cut_to
  select_keys b =
      let b' = record b { keys_selected = true } in
      if any changes b.specs
      then raised (value_error write_message) b'
      else if resumes b.partition_filter
      then raised (value_error resume_message) b'
      else done (record b' { specs = cut_to_limit b.limit (narrow_by b.partition_filter b.specs) })
