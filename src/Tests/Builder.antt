-- ===== src/Tests/Builder.antt =====
-- Builders over the chains of Tests/Batch.antt, and the theorems on their terminals.
use aerospike_client_python.Base.{◌≡◌, refl, true, false, none, some, List, [], ◌∷◌}
use aerospike_client_python.Batch.Spec.{OperationSpec}
use aerospike_client_python.Batch.Builder.{Error, Builder, done, raised}
use aerospike_client_python.Batch.Builder.Select.{select_keys}
use aerospike_client_python.Batch.Builder.Select.Laws.{chain_keys, selected, chain_keys-select_keys}
use aerospike_client_python.Batch.Builder.Chain.{finalize_chain}
use aerospike_client_python.Batch.Builder.Chain.Laws.{
  finalize_chain_idempotent, finalize_chain_after_refusal,
}
use aerospike_client_python.Tests.Batch.{core, upsert_ab, segment}

abbrev reads : List (OperationSpec core)
reads = segment ("a" ∷ "b" ∷ []) none ∷ segment ("c" ∷ "a" ∷ []) none ∷ []

-- A chain limited to one key, with no segment open.
abbrev limited : List (OperationSpec core) → Builder core
limited specs = record {
  specs = specs;
  single_key = none;
  keys = none;
  operations = [];
  put_bins = none;
  bins = none;
  with_no_bins = false;
  filter_expression = none;
  where_ael = none;
  op_type = none;
  generation = none;
  ttl_seconds = none;
  durable_delete = none;
  durable_delete_command_default = none;
  record_delete_in_operations = false;
  udf_package = none;
  udf_function = none;
  udf_args = none;
  default_filter_expression = none;
  default_where_ael = none;
  default_ttl_seconds = none;
  limit = some 1;
  chunk_size = none;
  partition_filter = some (9, 2);
  keys_selected = false;
  supports_server_compiled_ael = true;
  usage_on = false;
  usage_features = none;
}

abbrev writes : Builder core
writes = limited (upsert_ab ∷ [])

chain_keys-select_keys_example :
    (b' : Builder core) × (select_keys core (limited reads) ≡ done b')
    × (chain_keys core b'.specs ≡ selected core (some 1) (some (9, 2)) (chain_keys core reads))
chain_keys-select_keys_example = chain_keys-select_keys core (limited reads) refl refl

-- The builder that the first terminal leaves: key "b" alone is in the range.
abbrev finalized : Builder core
finalized = record (limited (segment ("b" ∷ []) none ∷ [])) { keys_selected = true }

finalize_chain_reads : finalize_chain core (limited reads) ≡ done finalized
unfolding finalize_chain
finalize_chain_reads = refl

finalize_chain_idempotent_example : finalize_chain core finalized ≡ done finalized
finalize_chain_idempotent_example =
    finalize_chain_idempotent core (limited reads) finalize_chain_reads

finalize_chain_after_refusal_example :
    (e : Error) × (b' : Builder core) × (finalize_chain core writes ≡ raised e b')
    × (finalize_chain core b' ≡ done b')
    × (b'.specs ≡ writes.specs)
finalize_chain_after_refusal_example =
    finalize_chain_after_refusal core writes (refl, refl) refl refl refl
