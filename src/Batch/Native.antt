-- ===== src/Batch/Native.antt =====
-- What aerospike_sdk/query_shared.py uses of the client core (`aerospike_native`): keys, operations,
-- filter expressions and the values of bins, none of which the repository implements.
use aerospike_client_python.Base.{ℕ, String, Bool, true, false, ◌≡◌}

pub record Native : Type 1 where
  pub Key : Type 0
  pub Operation : Type 0
  pub FilterExpression : Type 0
  pub Value : Type 0
  -- the attributes of a key that the builder reads
  pub namespace : Key → String
  pub digest : Key → String
  -- `Key.__eq__`, by which a Python set tells keys apart
  pub key_eq : Key → Key → Bool
  pub partition_id : Key → ℕ
  -- `PartitionFilter.by_range(begin, count)`, the attributes of a filter that the builder reads, and
  -- `digest is not None or partitions is not None`
  pub PartitionFilter : Type 0
  pub by_range : ℕ → ℕ → PartitionFilter
  pub begin : PartitionFilter → ℕ
  pub count : PartitionFilter → ℕ
  pub has_resume_state : PartitionFilter → Bool
  -- `Operation.put(name, value)`
  pub put : String → Value → Operation
  -- `isinstance(op, _CDT_OPS)`
  pub is_cdt : Operation → Bool
  -- `FilterExpression.from_server_compiled_ael`
  pub from_server_compiled_ael : String → FilterExpression

-- Keys compare by digest, and a range filter is the range that it was built from.
pub record IsLawful (N : Native) : Type 0 where
  pub key_eq_of_digest : (a b : N.Key) → N.digest a ≡ N.digest b → N.key_eq a b ≡ true
  pub begin-by_range : (b c : ℕ) → N.begin (N.by_range b c) ≡ b
  pub count-by_range : (b c : ℕ) → N.count (N.by_range b c) ≡ c
  pub has_resume_state-by_range : (b c : ℕ) → N.has_resume_state (N.by_range b c) ≡ false
